-- ===== src/Tls/Segments.antt =====
-- Sequences of TCP segments that are handed to TlsConstrictor::Evaluate.
use pcap_constrictor_win_pac.Base.{ℕ, ◌-◌, ◌<◌, ◌≡◌, true, false, List, [], ◌∷◌}
use pcap_constrictor_win_pac.Decode.Types.{PacketDecodeResult, is_tcp}
use pcap_constrictor_win_pac.Policy.Config.{TlsOptions}
use pcap_constrictor_win_pac.Span.{Span, has_bytes}
use pcap_constrictor_win_pac.Tls.Evaluate.{is_syn_or_rst, keep_all, evaluate}
use pcap_constrictor_win_pac.Tls.Scan.{advance_tcp_seq}
use pcap_constrictor_win_pac.Tls.Types.{
  DirectionKey, DirectionState, Directions, TlsConstrictResult, no_application_data,
  make_direction_key,
}

-- A packet as it is handed to Evaluate.
pub record Segment : Type 0 where
  pub packet : Span
  pub decoded : PacketDecodeResult

abbrev pub length_of : Segment → ℕ
length_of g = g.decoded.transport_payload_length

-- The direction is in an Application Data record that still lacks `missing` bytes, the next of
-- which has the sequence number `seq`.
pub record Waits (seq missing : ℕ) (s : DirectionState) : Type 0 where
  pub is_synchronized : s.synchronized ≡ true
  pub next_seq : s.expected_tcp_seq ≡ seq
  pub is_active : s.has_active_record ≡ true
  pub is_constrictible : s.active_record_constrictible ≡ true
  pub lacks : s.active_record_remaining_bytes ≡ missing

-- A payload of the direction `key` at the sequence number `seq`, inside its packet, that neither
-- opens nor resets the connection.
pub record Arrives (key : DirectionKey) (seq : ℕ) (g : Segment) : Type 0 where
  pub over_tcp : is_tcp g.decoded.transport_protocol ≡ true
  pub is_inside :
      has_bytes g.packet g.decoded.transport_payload_offset g.decoded.transport_payload_length
      ≡ true
  pub not_empty : 0 < g.decoded.transport_payload_length
  pub no_flags : is_syn_or_rst g.decoded.tcp_flags ≡ false
  pub same_key : make_direction_key g.decoded ≡ key
  pub in_order : g.decoded.tcp_seq ≡ seq

-- Segments that follow one another, `last` at their end, and together carry exactly the missing
-- bytes.
pub data Carry (key : DirectionKey) (last : Segment) : ℕ → ℕ → List Segment → Type 0 where
  final :
      {seq missing : ℕ}
      → Arrives key seq last
      → length_of last ≡ missing
      → Carry key last seq missing []
  middle :
      {seq missing : ℕ} {g : Segment} {gs : List Segment}
      → Arrives key seq g
      → length_of g < missing
      → Carry key last (advance_tcp_seq seq (length_of g)) (missing - length_of g) gs
      → Carry key last seq missing (g ∷ gs)

-- Evaluate on the segments in turn.
abbrev pub evaluate_all :
    TlsOptions → Directions → List Segment → Directions × List TlsConstrictResult
evaluate_all config d [] = (d, [])
evaluate_all config d (g ∷ gs) =
    let (after, result) = evaluate d g.packet g.decoded config in
    let (last, results) = evaluate_all config after gs in (last, result ∷ results)

abbrev pub kept_whole : Segment → TlsConstrictResult
kept_whole g = keep_all g.packet no_application_data
