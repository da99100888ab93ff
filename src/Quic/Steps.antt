-- ===== src/Quic/Steps.antt =====
-- Two ways through QuicConstrictor::Evaluate: a long header that fills the payload, and a short
-- header with a known connection id.
use pcap_constrictor_win_pac.Base.{
  ℕ, ◌+◌, ◌≤◌, ◌≡◌, refl, ap, ◌∙◌, max, true, false, some, arith, ◌==◌,
}
use pcap_constrictor_win_pac.Base.Table.{find}
use pcap_constrictor_win_pac.Decode.Types.{PacketDecodeResult}
use pcap_constrictor_win_pac.Policy.Config.{QuicOptions}
use pcap_constrictor_win_pac.Quic.Bounds.{parse_long_header_bounds}
use pcap_constrictor_win_pac.Quic.Cases.{evaluate_cases}
use pcap_constrictor_win_pac.Quic.Evaluate.{
  behind, expected_dcid, learn, matched, match_dcid, match_short, long_loop, after_long,
  quic_payload, long_walk, is_candidate, evaluate,
}
use pcap_constrictor_win_pac.Quic.Flow.{make_canonical_flow}
use pcap_constrictor_win_pac.Quic.Learning.{Carries-connection_id_matches, IsMatch}
use pcap_constrictor_win_pac.Quic.Loop.{long_loop_lem, goes_on}
use pcap_constrictor_win_pac.Quic.Parse.{
  LongHeaderInfo, is_long_header, is_short_header_compatible, parse_long_header,
}
use pcap_constrictor_win_pac.Quic.Types.{
  ConnectionId, FlowKey, FlowState, FlowDirection, Flows, plain, long_header, flow_eq,
}
use pcap_constrictor_win_pac.Span.Locality.{has_bytes-le}
use pcap_constrictor_win_pac.Span.{Span, byte_at}

-- The constrictor looks at the packet, and its payload range is inside.
pub record Reaches (packet : Span) (decoded : PacketDecodeResult) (config : QuicOptions)
    : Type 0 where
  pub candidate : is_candidate decoded config ≡ true
  pub inside : decoded.transport_payload_offset + decoded.transport_payload_length ≤ packet.size

match_dcid_lem :
    (config : QuicOptions) (decoded : PacketDecodeResult) (payload : Span) (offset : ℕ)
    (cid : ConnectionId)
    → IsMatch payload offset cid
    → match_dcid config decoded payload offset cid
      ≡ matched decoded payload offset (max config.short_header_keep_packet_bytes (1 + cid.length))
unfolding match_dcid
match_dcid_lem config decoded payload offset cid m = rw (
  has_bytes-le payload offset (1 + cid.length) (omega (arith, m.id_fits)),
  Carries-connection_id_matches cid payload (offset + 1) m.id_known m.carries,
)

after_long_short :
    (config : QuicOptions) (decoded : PacketDecodeResult) (payload : Span) (key : FlowKey)
    (direction : FlowDirection) (flows : Flows) (state : FlowState)
    → find key flows ≡ some state
    → IsMatch payload 0 (expected_dcid direction state)
    → after_long config decoded payload (key, direction) (behind flows 0 false) ≡ (
      flows,
      matched decoded payload 0
          (max config.short_header_keep_packet_bytes (1 + (expected_dcid direction state).length)),
    )
unfolding after_long match_short
after_long_short config decoded payload key direction flows state found m =
    rw (unfilled, m.short, found, match_short)
      (rw (m.id_known, match_dcid_lem config decoded payload 0 (expected_dcid direction state) m))
  where
    unfilled : (0 == payload.size) ≡ false
    unfilled = let h = m.id_fits in ground arith

long_walk_filled :
    (key : FlowKey) (direction : FlowDirection) (payload : Span) (flows : Flows)
    (info : LongHeaderInfo)
    → parse_long_header payload 0 ≡ some info
    → info.total_size ≡ payload.size
    → long_loop payload.size key direction payload flows 0 false
      ≡ behind (learn key direction info flows) info.total_size true
long_walk_filled key direction payload flows info parsed fills =
    long_loop_lem key direction payload flows 0 false
    ∙ rw (first, parsed)
        (long_loop_lem key direction payload (learn key direction info flows) (0 + info.total_size)
            true
          ∙ ground arith)
  where
    first : goes_on key direction payload 0 ≡ true
    first =
        let b = parse_long_header_bounds payload 0 parsed in
        unfold parse_long_header in ground arith

module _ (packet : Span) (decoded : PacketDecodeResult) (config : QuicOptions)
    (reaches : Reaches packet decoded config) where
  pub evaluate_walk :
      (flows : Flows)
      → evaluate flows packet decoded config
        ≡ after_long config decoded
            (quic_payload packet decoded)
            (make_canonical_flow decoded)
            (long_walk packet decoded flows)
  evaluate_walk flows =
      evaluate_cases
        (λ r.
          r
          ≡ after_long config decoded (quic_payload packet decoded) (make_canonical_flow decoded)
              (long_walk packet decoded flows))
        flows packet decoded config (λ other. absurd (ground (arith, reaches.candidate)))
        (λ _ out. absurd (omega (arith, reaches.inside))) λ _ _ _. refl

  -- The first byte of the payload starts no long header.
  long_walk_short :
      (flows : Flows)
      → is_short_header_compatible (byte_at (quic_payload packet decoded) 0) ≡ true
      → long_walk packet decoded flows ≡ behind flows 0 false
  unfolding long_walk is_short_header_compatible is_long_header
  long_walk_short flows short =
      long_loop_lem _ _ (quic_payload packet decoded) flows 0 false ∙ ground arith

  -- A short header with a known id is cut to the configured length, or behind the id.
  pub evaluate_short :
      (flows : Flows) (state : FlowState)
      → find (make_canonical_flow decoded).0 flows ≡ some state
      → IsMatch
          (quic_payload packet decoded)
          0
          (expected_dcid (make_canonical_flow decoded).1 state)
      → evaluate flows packet decoded config ≡ (
        flows,
        matched decoded (quic_payload packet decoded) 0 (
            max config.short_header_keep_packet_bytes
              (1 + (expected_dcid (make_canonical_flow decoded).1 state).length)),
      )
  evaluate_short flows state found m =
      evaluate_walk flows
      ∙ ap (after_long config decoded _ (make_canonical_flow decoded))
          (long_walk_short flows m.short)
      ∙ after_long_short config decoded _ _ _ flows state found m

  -- A payload that one long header fills teaches the flow its source connection id.
  pub evaluate_long :
      (flows : Flows) (info : LongHeaderInfo)
      → parse_long_header (quic_payload packet decoded) 0 ≡ some info
      → info.total_size ≡ (quic_payload packet decoded).size
      → evaluate flows packet decoded config ≡ (
        learn (make_canonical_flow decoded).0 (make_canonical_flow decoded).1 info flows,
        plain long_header,
      )
  evaluate_long flows info parsed fills =
      evaluate_walk flows
      ∙ ap (after_long config decoded _ (make_canonical_flow decoded)) walk
      ∙ unfold after_long in ground arith
    where
      payload : Span
      payload = quic_payload packet decoded

      learned : Flows
      learned = learn (make_canonical_flow decoded).0 (make_canonical_flow decoded).1 info flows

      walk : long_walk packet decoded flows ≡ behind learned info.total_size true
      walk =
          unfold long_walk in
          long_walk_filled (make_canonical_flow decoded).0 (make_canonical_flow decoded).1 payload
            flows info parsed fills
