-- ===== src/Policy/Decide.antt =====
-- LiveCapturePolicy::Evaluate of policy/LiveCapturePolicy.cpp.
use pcap_constrictor_win_pac.Base.{
  ℕ, ◌-◌, min, max, Bool, true, false, not, ◌&&◌, ◌||◌, ltb, leb, if◌then◌else◌, [],
}
use pcap_constrictor_win_pac.Decode.Link.{decode_packet}
use pcap_constrictor_win_pac.Decode.Types.{
  PacketDecodeResult, is_non_ip, is_tcp, is_udp, no_failure,
}
use pcap_constrictor_win_pac.Policy.Config.{PolicyConfig}
use pcap_constrictor_win_pac.Policy.Packet.{CapturedPacket, safe_captured_len, safe_span}
use pcap_constrictor_win_pac.Quic.Evaluate as Quic
use pcap_constrictor_win_pac.Quic.Evaluate.{port_configured}
use pcap_constrictor_win_pac.Quic.Types.{Flows, QuicConstrictDisposition, QuicConstrictResult}
use pcap_constrictor_win_pac.Tls.Evaluate as Tls
use pcap_constrictor_win_pac.Tls.Evaluate.{is_syn_or_rst}
use pcap_constrictor_win_pac.Tls.Types.{Directions, TlsConstrictDisposition, TlsConstrictResult}

pub data DecisionReason : Type 0 where
  default parse_error non_ip tcp udp tls_candidate : DecisionReason
  tls_application_data_constricted tls_malformed_fallback : DecisionReason
  tls_no_record_fallback quic_candidate quic_long_header : DecisionReason
  quic_short_header_matched quic_short_header_constricted : DecisionReason
  quic_short_header_unknown_cid_fallback : DecisionReason
  quic_short_header_dcid_mismatch_fallback quic_malformed_fallback : DecisionReason

pub record LiveCaptureDecision : Type 0 where
  pub output_len : ℕ
  pub original_len : ℕ
  pub reason : DecisionReason
  pub decode : PacketDecodeResult

pub record LiveCapturePolicy : Type 0 where
  pub config : PolicyConfig
  pub directions : Directions
  pub flows : Flows

unfoldable pub apply_minimum_savings_threshold : ℕ → ℕ → ℕ → ℕ
apply_minimum_savings_threshold baseline candidate min_saved =
    if leb baseline candidate
    then baseline
    else if ltb (baseline - candidate) min_saved
    then baseline
    else candidate

unfoldable pub is_malformed : CapturedPacket → Bool
is_malformed p =
    ltb p.packet.view_data.size p.packet.captured_len
    || ltb p.packet.original_len (safe_captured_len p.packet)

-- `output_len` before the constrictors.
unfoldable pub baseline_len : PolicyConfig → CapturedPacket → ℕ
baseline_len config p =
    min (min (safe_captured_len p.packet) p.packet.original_len)
      (min config.capture.default_snaplen config.capture.max_capture_len)

-- The reason before the constrictors.
unfoldable pub classify : PolicyConfig → Bool → PacketDecodeResult → DecisionReason
classify config malformed decoded =
    if malformed || not (no_failure decoded.failure_reason)
    then parse_error
    else if is_non_ip decoded
    then non_ip
    else if is_tcp decoded.transport_protocol
    then (if config.tls.enabled
          && (port_configured config.tls.ports decoded.src_port
              || port_configured config.tls.ports decoded.dst_port)
        then tls_candidate
        else tcp)
    else if is_udp decoded.transport_protocol
    then (if config.quic.enabled
          && (port_configured config.quic.ports decoded.src_port
              || port_configured config.quic.ports decoded.dst_port)
        then quic_candidate
        else udp)
    else default

-- The cut that a constrictor proposes, and the reason that it leads to.
pub record Verdict : Type 0 where
  pub length : ℕ
  pub why : DecisionReason

-- The branch on the disposition of the TLS constrictor.
unfoldable pub judge_tls : PolicyConfig → ℕ → TlsConstrictResult → Verdict
unfolding apply_minimum_savings_threshold
judge_tls config baseline r =
    let cut =
      apply_minimum_savings_threshold baseline (min baseline r.output_len)
        config.general.min_saved_bytes_per_packet in
    elim r.disposition [
      | TlsConstrictDisposition.app_data_prefix ↦ record {
        length = cut;
        why = if ltb cut baseline then tls_application_data_constricted else tls_candidate;
      }
      | TlsConstrictDisposition.malformed ↦ record {
        length = baseline;
        why = tls_malformed_fallback;
      }
      | TlsConstrictDisposition.uncertain_fallback ↦ record {
        length = baseline;
        why = tls_malformed_fallback;
      }
      | TlsConstrictDisposition.no_record ↦ record {
        length = baseline;
        why = tls_no_record_fallback;
      }
      | TlsConstrictDisposition.no_application_data ↦ record {
        length = baseline;
        why = tls_candidate;
      }
    ]

-- The branch on the disposition of the QUIC constrictor.
unfoldable pub judge_quic : PolicyConfig → ℕ → QuicConstrictResult → Verdict
unfolding apply_minimum_savings_threshold
judge_quic config baseline r =
    let cut =
      apply_minimum_savings_threshold baseline (min baseline r.output_len)
        config.general.min_saved_bytes_per_packet in
    elim r.disposition [
      | QuicConstrictDisposition.long_header ↦ record { length = baseline; why = quic_long_header }
      | QuicConstrictDisposition.short_header_matched ↦ record {
        length = cut;
        why = if ltb cut baseline then quic_short_header_constricted else quic_short_header_matched;
      }
      | QuicConstrictDisposition.unknown_cid_fallback ↦ record {
        length = baseline;
        why = quic_short_header_unknown_cid_fallback;
      }
      | QuicConstrictDisposition.dcid_mismatch_fallback ↦ record {
        length = baseline;
        why = quic_short_header_dcid_mismatch_fallback;
      }
      | QuicConstrictDisposition.malformed_fallback ↦ record {
        length = baseline;
        why = quic_malformed_fallback;
      }
      | QuicConstrictDisposition.not_applicable ↦ record { length = baseline; why = quic_candidate }
    ]

abbrev pub is_tls_candidate : DecisionReason → Bool
is_tls_candidate tls_candidate = true
is_tls_candidate _ = false

abbrev pub is_quic_candidate : DecisionReason → Bool
is_quic_candidate quic_candidate = true
is_quic_candidate _ = false

-- The two constrictors, on the packet's safe bytes. A candidate is never malformed and always
-- decoded without a failure, so the source's repeated tests for that add nothing; they are kept.
unfoldable pub constrict :
    LiveCapturePolicy
    → CapturedPacket
    → PacketDecodeResult
    → DecisionReason
    → LiveCapturePolicy × Verdict
unfolding judge_tls judge_quic
constrict policy p decoded reason =
    let config = policy.config in
    let baseline = baseline_len config p in
    let clean = not (is_malformed p) && no_failure decoded.failure_reason in
    let tls = Tls.evaluate policy.directions (safe_span p) decoded config.tls in
    let quic = Quic.evaluate policy.flows (safe_span p) decoded config.quic in
    if clean
      && is_tls_candidate reason
      && (ltb 0 decoded.transport_payload_length || is_syn_or_rst decoded.tcp_flags)
    then (record policy { directions = tls.0 }, judge_tls config baseline tls.1)
    else if clean && is_quic_candidate reason && ltb 0 decoded.transport_payload_length
    then (record policy { flows = quic.0 }, judge_quic config baseline quic.1)
    else (policy, record { length = baseline; why = reason })

unfoldable pub evaluate :
    LiveCapturePolicy → CapturedPacket → LiveCapturePolicy × LiveCaptureDecision
evaluate policy p =
    let decoded = decode_packet (safe_span p) p.link_type in
    let reason = classify policy.config (is_malformed p) decoded in
    let (after, verdict) = constrict policy p decoded reason in
    (
      after,
      record {
        output_len = verdict.length;
        original_len = max p.packet.original_len (baseline_len policy.config p);
        reason = verdict.why;
        decode = decoded;
      },
    )

-- The constructor.
unfoldable pub new_policy : PolicyConfig → LiveCapturePolicy
new_policy config = record { config = config; directions = []; flows = [] }
