-- ===== src/Policy/Bounds.antt =====
-- What LiveCapturePolicy::Evaluate promises of every decision.
use pcap_constrictor_win_pac.Base.{
  ℕ, ◌+◌, ◌^◌, ◌<◌, ◌≤◌, ◌≡◌, refl, min, max, Bool, true, false, ◌&&◌, ◌||◌, inl, inr, Bool-cases,
  ltb, arith, not,
}
use pcap_constrictor_win_pac.Decode.Types.{PacketDecodeResult, no_failure}
use pcap_constrictor_win_pac.Policy.Config.{PolicyConfig}
use pcap_constrictor_win_pac.Policy.Decide.{
  DecisionReason, LiveCapturePolicy, Verdict, tls_application_data_constricted,
  quic_short_header_constricted, is_malformed, baseline_len, classify, judge_tls, judge_quic,
  constrict, evaluate, is_tls_candidate, is_quic_candidate,
}
use pcap_constrictor_win_pac.Policy.Packet.{CapturedPacket, safe_captured_len, safe_span}
use pcap_constrictor_win_pac.Quic.Evaluate as Quic
use pcap_constrictor_win_pac.Quic.Output as QuicOutput
use pcap_constrictor_win_pac.Quic.Types.{QuicConstrictResult}
use pcap_constrictor_win_pac.Span.{Span}
use pcap_constrictor_win_pac.Tls.Bounds as TlsBounds
use pcap_constrictor_win_pac.Tls.Evaluate as Tls
use pcap_constrictor_win_pac.Tls.Evaluate.{is_syn_or_rst}
use pcap_constrictor_win_pac.Tls.Types.{TlsConstrictResult}

abbrev pub is_constricted : DecisionReason → Bool
is_constricted tls_application_data_constricted = true
is_constricted quic_short_header_constricted = true
is_constricted _ = false

-- A length below the baseline: behind the headers, worth the savings, and told by the reason.
pub record IsSound (config : PolicyConfig) (baseline : ℕ) (decoded : PacketDecodeResult)
    (length : ℕ) (reason : DecisionReason) : Type 0 where
  pub below_baseline : length ≤ baseline
  pub saves_enough :
      length < baseline → length + config.general.min_saved_bytes_per_packet ≤ baseline
  pub told : is_constricted reason ≡ ltb length baseline
  pub keeps_headers : min baseline decoded.transport_payload_offset ≤ length

module _ (config : PolicyConfig) (baseline : ℕ) (decoded : PacketDecodeResult) where
  judge_tls-IsSound :
      (packet : Span) (r : TlsConstrictResult)
      → TlsBounds.IsCut packet decoded r
      → let v = judge_tls config baseline r in IsSound config baseline decoded v.length v.why
  unfolding judge_tls
  judge_tls-IsSound packet r cut = ground arith

  judge_quic-IsSound :
      (r : QuicConstrictResult)
      → QuicOutput.IsShortCut decoded r
      → let v = judge_quic config baseline r in IsSound config baseline decoded v.length v.why
  unfolding judge_quic
  judge_quic-IsSound r cut = ground arith

classify-plain :
    (config : PolicyConfig) (malformed : Bool) (decoded : PacketDecodeResult)
    → is_constricted (classify config malformed decoded) ≡ false
unfolding classify
classify-plain config malformed decoded = ground arith

safe_span-lt : (p : CapturedPacket) → (safe_span p).size < 2 ^ 32
unfolding safe_span safe_captured_len
safe_span-lt p = omega arith

module _ (policy : LiveCapturePolicy) (p : CapturedPacket) (decoded : PacketDecodeResult)
    (reason : DecisionReason) where
  abbrev tls_runs : Bool
  tls_runs =
      (not (is_malformed p) && no_failure decoded.failure_reason)
      && is_tls_candidate reason
      && (ltb 0 decoded.transport_payload_length || is_syn_or_rst decoded.tcp_flags)

  abbrev quic_runs : Bool
  quic_runs =
      (not (is_malformed p) && no_failure decoded.failure_reason)
      && is_quic_candidate reason
      && ltb 0 decoded.transport_payload_length

  -- The ways through `constrict`.
  pub constrict_cases {ℓ} :
      (P : LiveCapturePolicy × Verdict → Type ℓ)
      → (let r = Tls.evaluate policy.directions (safe_span p) decoded policy.config.tls in
          tls_runs ≡ true
          → P (
            record policy { directions = r.0 },
            judge_tls policy.config (baseline_len policy.config p) r.1,
          ))
      → (let r = Quic.evaluate policy.flows (safe_span p) decoded policy.config.quic in
          quic_runs ≡ true
          → P (
            record policy { flows = r.0 },
            judge_quic policy.config (baseline_len policy.config p) r.1,
          ))
      → (P (policy, record { length = baseline_len policy.config p; why = reason }))
      → P (constrict policy p decoded reason)
  unfolding constrict
  constrict_cases P tls quic neither = elim (Bool-cases tls_runs) [
    | inl on ↦ rw on (tls on)
    | inr off ↦
        rw off
          (elim (Bool-cases quic_runs) [ inl on ↦ rw on (quic on) | inr none ↦ rw none neither ])
  ]

  constrict-IsSound :
      is_constricted reason ≡ false
      → let v = (constrict policy p decoded reason).1 in
        IsSound policy.config (baseline_len policy.config p) decoded v.length v.why
  constrict-IsSound plain =
      constrict_cases
        (λ r. IsSound policy.config (baseline_len policy.config p) decoded r.1.length r.1.why)
        (λ _. judge_tls-IsSound policy.config _ decoded (safe_span p) _ (
          TlsBounds.evaluate-IsCut (safe_span p) decoded (safe_span-lt p) policy.directions
            policy.config.tls))
        (λ _. judge_quic-IsSound policy.config _ decoded _ (
          QuicOutput.evaluate-IsShortCut policy.flows (safe_span p) decoded policy.config.quic
            (safe_span-lt p)))
        (ground arith)

-- Every decision, whatever the tables of the constrictors hold, has an output length at most the
-- baseline; below it only by at least the configured savings, exactly when the reason says that
-- the packet was constricted, and never inside the headers that were decoded.
pub evaluate-IsSound :
    (policy : LiveCapturePolicy) (p : CapturedPacket)
    → let d = (evaluate policy p).1 in
      IsSound policy.config (baseline_len policy.config p) d.decode d.output_len d.reason
unfolding evaluate
evaluate-IsSound policy p =
    constrict-IsSound policy p _ _ (classify-plain policy.config (is_malformed p) _)

evaluate_original :
    (policy : LiveCapturePolicy) (p : CapturedPacket)
    → (evaluate policy p).1.original_len ≡ max p.packet.original_len (baseline_len policy.config p)
unfolding evaluate
evaluate_original policy p = refl

-- The output length is at most the captured bytes that are there, the original length of the
-- packet, each of the two configured limits, and the original length that the decision reports.
pub evaluate_fits :
    (policy : LiveCapturePolicy) (p : CapturedPacket)
    → let d = (evaluate policy p).1 in
      (d.output_len ≤ safe_captured_len p.packet)
      × (d.output_len ≤ p.packet.original_len)
      × (d.output_len ≤ policy.config.capture.default_snaplen)
      × (d.output_len ≤ policy.config.capture.max_capture_len)
      × (d.output_len ≤ d.original_len)
unfolding baseline_len
evaluate_fits policy p =
    let s = evaluate-IsSound policy p in
    let o = evaluate_original policy p in ground (arith, s.below_baseline, o)
