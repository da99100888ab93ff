-- ===== src/Quic/Cases.antt =====
-- The ways out of QuicConstrictor::Evaluate, as a rule for proofs about it.
use pcap_constrictor_win_pac.Base.{
  ◌+◌, ◌-◌, ◌<◌, ◌≤◌, ◌≡◌, true, false, ◌||◌, inl, inr, ltb, ◌==◌, Bool-cases, arith,
}
use pcap_constrictor_win_pac.Decode.Types.{PacketDecodeResult}
use pcap_constrictor_win_pac.Policy.Config.{QuicOptions}
use pcap_constrictor_win_pac.Quic.Evaluate.{
  is_candidate, quic_payload, long_walk, after_long, evaluate,
}
use pcap_constrictor_win_pac.Quic.Flow.{make_canonical_flow}
use pcap_constrictor_win_pac.Quic.Types.{
  Flows, QuicConstrictResult, plain, not_applicable, malformed_fallback,
}
use pcap_constrictor_win_pac.Span.{Span, subspan}

module _ {ℓ} (P : Flows × QuicConstrictResult → Type ℓ) (flows : Flows) (packet : Span)
    (decoded : PacketDecodeResult) (config : QuicOptions) where
  pub evaluate_cases :
      (is_candidate decoded config ≡ false → P (flows, plain not_applicable))
      → (is_candidate decoded config ≡ true
          → packet.size < decoded.transport_payload_offset + decoded.transport_payload_length
          → P (flows, plain malformed_fallback))
      → (is_candidate decoded config ≡ true
          → 0 < decoded.transport_payload_length
          → decoded.transport_payload_offset + decoded.transport_payload_length ≤ packet.size
          → P (
              after_long config decoded
                (quic_payload packet decoded)
                (make_canonical_flow decoded)
                (long_walk packet decoded flows)))
      → P (evaluate flows packet decoded config)
  unfolding evaluate
  evaluate_cases other outside walk = elim (Bool-cases (is_candidate decoded config)) [
    | inr no_quic ↦ rw no_quic (other no_quic)
    | inl candidate ↦
        rw candidate
          (elim (Bool-cases (
            ltb packet.size decoded.transport_payload_offset
            || ltb (packet.size - decoded.transport_payload_offset)
                decoded.transport_payload_length)) [
                  | inl out ↦ rw out (outside candidate (ground arith))
                  | inr fits ↦
                      rw (fits, nonempty (unfold is_candidate in ground arith))
                        (walk candidate (unfold is_candidate in ground arith) (ground arith))
                ])
  ]
    where
      nonempty :
          0 < decoded.transport_payload_length → (quic_payload packet decoded).size == 0 ≡ false
      nonempty h = unfold quic_payload subspan in ground arith
