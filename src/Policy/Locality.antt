-- ===== src/Policy/Locality.antt =====
-- LiveCapturePolicy::Evaluate reads in range.
use pcap_constrictor_win_pac.Base.{ℕ, ◌%◌, ◌<◌, ◌≡◌, refl, not, ◌&&◌, ◌||◌, ltb, if◌then◌else◌, max}
use pcap_constrictor_win_pac.Decode.Locality.{decode_packet-Agree}
use pcap_constrictor_win_pac.Decode.Types.{PacketDecodeResult, no_failure}
use pcap_constrictor_win_pac.Policy.Decide.{
  DecisionReason, LiveCapturePolicy, is_malformed, baseline_len, classify, judge_tls, judge_quic,
  is_tls_candidate, is_quic_candidate, constrict, evaluate,
}
use pcap_constrictor_win_pac.Policy.Packet.{CapturedPacket, safe_captured_len, safe_span}
use pcap_constrictor_win_pac.Quic.Locality as QuicLocality
use pcap_constrictor_win_pac.Span.Locality.{Agree}
use pcap_constrictor_win_pac.Span.{byte_at}
use pcap_constrictor_win_pac.Tls.Evaluate.{is_syn_or_rst}
use pcap_constrictor_win_pac.Tls.Locality as TlsLocality

-- The same packet in another memory.
abbrev pub in_memory : CapturedPacket → (ℕ → ℕ) → CapturedPacket
in_memory p memory = record p {
  packet = record p.packet {
    view_data = record { memory = memory; size = p.packet.view_data.size };
  };
}

module _ (p : CapturedPacket) (memory : ℕ → ℕ)
    (same : (i : ℕ)
      → i < safe_captured_len p.packet
      → byte_at p.packet.view_data i ≡ memory i % 256) where
  safe_span-Agree : Agree (safe_span p) (safe_span (in_memory p memory))
  unfolding safe_span safe_captured_len byte_at
  safe_span-Agree = record { same_size = refl; same_bytes = λ i lt. same i lt }

  constrict-Agree :
      (policy : LiveCapturePolicy) (decoded : PacketDecodeResult) (reason : DecisionReason)
      → constrict policy p decoded reason ≡ constrict policy (in_memory p memory) decoded reason
  unfolding constrict baseline_len is_malformed safe_captured_len
  constrict-Agree policy decoded reason = λ i.
      (let config = policy.config in
        let baseline = baseline_len config p in
        let clean = not (is_malformed p) && no_failure decoded.failure_reason in
        let tls =
          TlsLocality.evaluate-Agree safe_span-Agree policy.directions decoded config.tls i in
        let quic = QuicLocality.evaluate-Agree policy.flows decoded config.quic safe_span-Agree i in
        if clean
          && is_tls_candidate reason
          && (ltb 0 decoded.transport_payload_length || is_syn_or_rst decoded.tcp_flags)
        then (record policy { directions = tls.0 }, judge_tls config baseline tls.1)
        else if clean && is_quic_candidate reason && ltb 0 decoded.transport_payload_length
        then (record policy { flows = quic.0 }, judge_quic config baseline quic.1)
        else (policy, record { length = baseline; why = reason }))

  -- LiveCapturePolicy::Evaluate reads no byte outside the captured packet: a packet in a second
  -- memory, which holds the same captured bytes and anything behind them, gets the same decision
  -- and leaves the same tables.
  pub evaluate-in_memory :
      (policy : LiveCapturePolicy) → evaluate policy p ≡ evaluate policy (in_memory p memory)
  unfolding evaluate baseline_len is_malformed safe_captured_len
  evaluate-in_memory policy = λ i.
      (let decoded = decode_packet-Agree p.link_type safe_span-Agree i in
        let reason = classify policy.config (is_malformed p) decoded in
        let (after, verdict) = constrict-Agree policy decoded reason i in
        (
          after,
          record {
            output_len = verdict.length;
            original_len = max p.packet.original_len (baseline_len policy.config p);
            reason = verdict.why;
            decode = decoded;
          },
        ))
