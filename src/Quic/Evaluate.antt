-- ===== src/Quic/Evaluate.antt =====
-- QuicConstrictor::Evaluate.
use pcap_constrictor_win_pac.Base.{
  ℕ, zero, suc, ◌+◌, ◌-◌, ◌%◌, ◌^◌, min, max, Bool, true, false, not, ◌&&◌, ◌||◌, Option, none,
  some, List, [], ◌∷◌, ltb, ◌==◌, if◌then◌else◌,
}
use pcap_constrictor_win_pac.Base.Table.{find, find_or, store}
use pcap_constrictor_win_pac.Decode.Types.{PacketDecodeResult, is_udp}
use pcap_constrictor_win_pac.Policy.Config.{QuicOptions}
use pcap_constrictor_win_pac.Quic.Flow.{make_canonical_flow}
use pcap_constrictor_win_pac.Quic.Parse.{
  LongHeaderInfo, is_long_header, is_short_header_compatible, parse_long_header,
  connection_id_matches,
}
use pcap_constrictor_win_pac.Quic.Types.{
  QuicConstrictResult, plain, ConnectionId, FlowKey, FlowDirection, a_to_b, b_to_a, FlowState,
  Flows, empty_flow, flow_eq, not_applicable, long_header, short_header_matched,
  unknown_cid_fallback, dcid_mismatch_fallback, malformed_fallback,
}
use pcap_constrictor_win_pac.Span.{Span, byte_at, subspan, has_bytes}

-- `std::find` over the configured ports.
unfoldable pub port_configured : List ℕ → ℕ → Bool
port_configured [] port = false
port_configured (p ∷ ports) port = p == port || port_configured ports port

-- The source connection id is remembered for the endpoint that sent it.
abbrev pub set_scid : FlowDirection → ConnectionId → FlowState → FlowState
set_scid a_to_b cid s = record s { endpoint_a_scid = cid }
set_scid b_to_a cid s = record s { endpoint_b_scid = cid }

-- A packet is addressed to a connection id of the endpoint that receives it.
abbrev pub expected_dcid : FlowDirection → FlowState → ConnectionId
expected_dcid a_to_b s = s.endpoint_b_scid
expected_dcid b_to_a s = s.endpoint_a_scid

-- `auto& flow_state = flow_states_[flow_key]`, and the update through it.
unfoldable pub learn : FlowKey → FlowDirection → LongHeaderInfo → Flows → Flows
learn key direction info flows =
    let state = find_or key empty_flow flows in
    store key
      (if info.scid.known && ltb 0 info.scid.length
        then set_scid direction info.scid state
        else state)
      flows

-- Where the loop over the long headers ends: behind them, or at one that cannot be parsed.
pub data LongWalk : Type 0 where
  behind : Flows → ℕ → Bool → LongWalk
  broken : Flows → LongWalk

-- The loop. A long header takes seven bytes at least, so one round for each byte of the payload is
-- enough: when none is left, the loop's test fails.
unfoldable pub long_loop : ℕ → FlowKey → FlowDirection → Span → Flows → ℕ → Bool → LongWalk
unfolding learn
long_loop zero key direction payload flows offset saw = behind flows offset saw
long_loop (suc fuel) key direction payload flows offset saw =
    let parsed : LongWalk = elim (parse_long_header payload offset) [
      | none ↦ broken flows
      | some info ↦
          long_loop fuel key direction payload (learn key direction info flows)
            (offset + info.total_size) true
    ] in
    if ltb offset payload.size && is_long_header (byte_at payload offset)
    then parsed
    else behind flows offset saw

-- What is kept of the payload from `offset` on, if `keep` bytes are wanted.
unfoldable pub matched : PacketDecodeResult → Span → ℕ → ℕ → QuicConstrictResult
matched decoded payload offset keep = record {
  disposition = short_header_matched;
  output_len =
      (decoded.transport_payload_offset + offset + min (payload.size - offset) keep) % 2 ^ 32;
}

-- A short header whose flow has a connection id for it.
unfoldable pub match_dcid :
    QuicOptions → PacketDecodeResult → Span → ℕ → ConnectionId → QuicConstrictResult
unfolding matched
match_dcid config decoded payload offset dcid =
    let required = 1 + dcid.length in
    if not (has_bytes payload offset required)
    then plain malformed_fallback
    else if not (connection_id_matches dcid payload (offset + 1))
    then plain dcid_mismatch_fallback
    else matched decoded payload offset (max config.short_header_keep_packet_bytes required)

-- A short header whose flow has none.
unfoldable pub match_unknown : QuicOptions → PacketDecodeResult → Span → ℕ → QuicConstrictResult
unfolding matched
match_unknown config decoded payload offset =
    if config.require_dcid_match || not config.allow_short_header_without_known_dcid
    then plain unknown_cid_fallback
    else matched decoded payload offset (max config.short_header_keep_packet_bytes 1)

unfoldable pub match_short :
    QuicOptions
    → PacketDecodeResult
    → Span
    → ℕ
    → FlowDirection
    → Option FlowState
    → QuicConstrictResult
unfolding match_dcid match_unknown
match_short config decoded payload offset direction none =
    match_unknown config decoded payload offset
match_short config decoded payload offset direction (some flow) =
    let dcid = expected_dcid direction flow in
    if not dcid.known
    then match_unknown config decoded payload offset
    else match_dcid config decoded payload offset dcid

-- What follows the loop.
unfoldable pub after_long :
    QuicOptions
    → PacketDecodeResult
    → Span
    → FlowKey × FlowDirection
    → LongWalk
    → Flows × QuicConstrictResult
after_long config decoded payload flow (broken flows) = (flows, plain malformed_fallback)
after_long config decoded payload (key, direction) (behind flows offset saw) =
    if offset == payload.size
    then (flows, plain (if saw then long_header else not_applicable))
    else if not (is_short_header_compatible (byte_at payload offset))
    then (flows, plain (if saw then malformed_fallback else not_applicable))
    else (flows, match_short config decoded payload offset direction (find key flows))

unfoldable pub quic_payload : Span → PacketDecodeResult → Span
quic_payload packet decoded =
    subspan packet decoded.transport_payload_offset decoded.transport_payload_length

-- The guard at the beginning.
unfoldable pub is_candidate : PacketDecodeResult → QuicOptions → Bool
is_candidate decoded config =
    config.enabled
    && is_udp decoded.transport_protocol
    && not (decoded.transport_payload_length == 0)
    && (port_configured config.ports decoded.src_port
        || port_configured config.ports decoded.dst_port)

unfoldable pub long_walk : Span → PacketDecodeResult → Flows → LongWalk
long_walk packet decoded flows =
    let (key, direction) = make_canonical_flow decoded in
    let payload = quic_payload packet decoded in
    long_loop payload.size key direction payload flows 0 false

-- The check `payload.empty()` behind the guards cannot succeed: the length is not 0.
unfoldable pub evaluate :
    Flows → Span → PacketDecodeResult → QuicOptions → Flows × QuicConstrictResult
unfolding after_long long_walk
evaluate flows packet decoded config =
    let payload = quic_payload packet decoded in
    if not (is_candidate decoded config)
    then (flows, plain not_applicable)
    else if ltb packet.size decoded.transport_payload_offset
        || ltb (packet.size - decoded.transport_payload_offset) decoded.transport_payload_length
    then (flows, plain malformed_fallback)
    else if payload.size == 0
    then (flows, plain not_applicable)
    else after_long config decoded payload (make_canonical_flow decoded)
        (long_walk packet decoded flows)
