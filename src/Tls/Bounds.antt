-- ===== src/Tls/Bounds.antt =====
-- Where TlsConstrictor::Evaluate may cut a packet.
use pcap_constrictor_win_pac.Base.{◌+◌, ◌%◌, ◌^◌, ◌<◌, ◌≤◌, ◌≡◌, ◌≢◌, arith}
use pcap_constrictor_win_pac.Decode.Types.{PacketDecodeResult}
use pcap_constrictor_win_pac.Policy.Config.{TlsOptions}
use pcap_constrictor_win_pac.Span.Locality.{has_bytes-true}
use pcap_constrictor_win_pac.Span.{Span}
use pcap_constrictor_win_pac.Tls.Cases.{evaluate_cases}
use pcap_constrictor_win_pac.Tls.Evaluate.{keep_all, conclude, after_scan, evaluate}
use pcap_constrictor_win_pac.Tls.Scan.{Scan, Round, again, leave, no_record_return}
use pcap_constrictor_win_pac.Tls.Types.{
  Directions, DirectionKey, TlsConstrictResult, app_data_prefix, uncertain_fallback,
}

-- A result that keeps the packet whole, or cuts it inside its TCP payload.
pub record IsCut (packet : Span) (decoded : PacketDecodeResult) (r : TlsConstrictResult)
    : Type 0 where
  pub whole : r.disposition ≢ app_data_prefix → r.output_len ≡ packet.size % 2 ^ 32
  pub behind_headers :
      r.disposition ≡ app_data_prefix → decoded.transport_payload_offset ≤ r.output_len
  pub inside_payload :
      r.disposition ≡ app_data_prefix
      → r.output_len < decoded.transport_payload_offset + decoded.transport_payload_length
  pub cut_fits : r.disposition ≡ app_data_prefix → r.output_len < packet.size
  pub certain : r.disposition ≢ uncertain_fallback

module _ (packet : Span) (decoded : PacketDecodeResult) (small : packet.size < 2 ^ 32) where
  conclude-IsCut :
      (k : DirectionKey) (s : Scan)
      → decoded.transport_payload_offset + decoded.transport_payload_length ≤ packet.size
      → IsCut packet decoded (conclude packet decoded k s).1
  unfolding conclude
  conclude-IsCut k s fits = ground arith

  after_scan-IsCut :
      (k : DirectionKey) (r : Round)
      → decoded.transport_payload_offset + decoded.transport_payload_length ≤ packet.size
      → IsCut packet decoded (after_scan packet decoded k r).1
  unfolding after_scan keep_all
  after_scan-IsCut k (again s) fits = conclude-IsCut k s fits
  after_scan-IsCut k (leave s) fits = conclude-IsCut k s fits
  after_scan-IsCut k (no_record_return erased s) fits = ground arith

  -- For a packet below 4 GiB, whatever the table holds: a packet that is not an Application Data
  -- prefix keeps its whole length; one that is keeps all its headers and loses at least one byte
  -- of its payload; and the disposition UncertainFallback, which the policy handles, never comes.
  pub evaluate-IsCut :
      (directions : Directions) (config : TlsOptions)
      → IsCut packet decoded (evaluate directions packet decoded config).1
  unfolding keep_all
  evaluate-IsCut d config =
      evaluate_cases (λ r. IsCut packet decoded r.1) d packet decoded config (λ _. ground arith)
        (λ _ _. ground arith) (λ _ _. ground arith)
        λ _ _ fits. after_scan-IsCut _ _ (has_bytes-true packet _ _ fits)
