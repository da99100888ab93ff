-- ===== src/Tls/Cases.antt =====
-- The ways out of TlsConstrictor::Evaluate, as a rule for proofs about it.
use pcap_constrictor_win_pac.Base.{◌≡◌, ◌<◌, true, false, inl, inr, ◌==◌, Bool-cases, arith}
use pcap_constrictor_win_pac.Decode.Types.{PacketDecodeResult, is_tcp}
use pcap_constrictor_win_pac.Policy.Config.{TlsOptions}
use pcap_constrictor_win_pac.Span.{Span, has_bytes}
use pcap_constrictor_win_pac.Tls.Evaluate.{flush, keep_all, after_scan, scan, evaluate}
use pcap_constrictor_win_pac.Tls.Types.{
  Directions, TlsConstrictResult, make_direction_key, no_application_data, malformed,
}

module _ {ℓ} (P : Directions × TlsConstrictResult → Type ℓ) (d : Directions) (packet : Span)
    (decoded : PacketDecodeResult) (config : TlsOptions) where
  pub evaluate_cases :
      (is_tcp decoded.transport_protocol ≡ false → P (d, keep_all packet malformed))
      → (is_tcp decoded.transport_protocol ≡ true
          → decoded.transport_payload_length ≡ 0
          → P (flush d decoded, keep_all packet no_application_data))
      → (is_tcp decoded.transport_protocol ≡ true
          → has_bytes packet decoded.transport_payload_offset decoded.transport_payload_length
            ≡ false
          → P (flush d decoded, keep_all packet malformed))
      → (is_tcp decoded.transport_protocol ≡ true
          → 0 < decoded.transport_payload_length
          → has_bytes packet decoded.transport_payload_offset decoded.transport_payload_length
            ≡ true
          → P (
              after_scan packet decoded
                (make_direction_key decoded)
                (scan config packet decoded (flush d decoded))))
      → P (evaluate d packet decoded config)
  unfolding evaluate
  evaluate_cases other empty outside walk = elim (Bool-cases (is_tcp decoded.transport_protocol)) [
    | inr no_tcp ↦ rw no_tcp (other no_tcp)
    | inl tcp ↦ rw tcp (elim (Bool-cases (decoded.transport_payload_length == 0)) [
      | inl none_there ↦ rw none_there (empty tcp (ground arith))
      | inr some_there ↦
          rw some_there
            (elim (Bool-cases (
              has_bytes packet decoded.transport_payload_offset decoded.transport_payload_length)) [
                | inl fits ↦ rw fits (walk tcp (ground arith) fits)
                | inr long ↦ rw long (outside tcp long)
              ])
    ])
  ]
