-- ===== src/Quic/Exchange.antt =====
-- An exchange: one endpoint announces its connection id in a long header, the other uses it.
use pcap_constrictor_win_pac.Base.{
  ◌+◌, ◌%◌, ◌^◌, ◌<◌, ◌≤◌, ◌≡◌, ap, ◌∙◌, min, max, true, some, arith,
}
use pcap_constrictor_win_pac.Base.Table.{find, find_or, find-store}
use pcap_constrictor_win_pac.Decode.Types.{PacketDecodeResult}
use pcap_constrictor_win_pac.Policy.Config.{QuicOptions}
use pcap_constrictor_win_pac.Quic.Bounds.{parse_long_header_bounds, IsId}
use pcap_constrictor_win_pac.Quic.Evaluate.{
  expected_dcid, set_scid, learn, matched, quic_payload, evaluate,
}
use pcap_constrictor_win_pac.Quic.Flow.{make_canonical_flow}
use pcap_constrictor_win_pac.Quic.Learning.{Carries, IsMatch}
use pcap_constrictor_win_pac.Quic.Parse.{
  LongHeaderInfo, is_short_header_compatible, parse_long_header,
}
use pcap_constrictor_win_pac.Quic.Steps.{Reaches, evaluate_short, evaluate_long}
use pcap_constrictor_win_pac.Quic.Symmetry.{turn}
use pcap_constrictor_win_pac.Quic.Types.{
  FlowKey, FlowState, FlowDirection, Flows, QuicConstrictResult, short_header_matched, flow_eq,
  flow_key_beq_iff, empty_flow,
}
use pcap_constrictor_win_pac.Span.{Span, byte_at}

-- The entry that `learn` leaves holds the announced id for the sender.
learn_scid :
    (key : FlowKey) (direction : FlowDirection) (info : LongHeaderInfo) (flows : Flows)
    → IsId info.scid
    → 0 < info.scid.length
    → (state : FlowState) × (find key (learn key direction info flows) ≡ some state)
      × (expected_dcid (turn direction) state ≡ info.scid)
unfolding learn
learn_scid key direction info flows id long = (
  set_scid direction info.scid (find_or key empty_flow flows),
  ground (
    arith,
    id.id_known,
    flow_key_beq_iff key key,
    find-store key key (set_scid direction info.scid (find_or key empty_flow flows)) flows,
  ),
  ground arith,
)

-- After one packet whose payload is a single long header with a source connection id, a packet of
-- the same flow in the other direction that starts with a short header carrying that id is
-- matched, whatever the table held before: of its payload the configured number of bytes is kept,
-- but at least the first byte and the whole id, and no more than there is.
pub evaluate-evaluate :
    (flows : Flows) (config : QuicOptions) (announced : Span) (announcing : PacketDecodeResult)
    (info : LongHeaderInfo) (packet : Span) (decoded : PacketDecodeResult)
    → Reaches announced announcing config
    → Reaches packet decoded config
    → parse_long_header (quic_payload announced announcing) 0 ≡ some info
    → info.total_size ≡ (quic_payload announced announcing).size
    → 0 < info.scid.length
    → make_canonical_flow decoded
      ≡ ((make_canonical_flow announcing).0, turn (make_canonical_flow announcing).1)
    → is_short_header_compatible (byte_at (quic_payload packet decoded) 0) ≡ true
    → 1 + info.scid.length ≤ (quic_payload packet decoded).size
    → Carries (quic_payload packet decoded) 1 info.scid 0 info.scid.length
    → (evaluate (evaluate flows announced announcing config).0 packet decoded config).1 ≡ record {
      disposition = short_header_matched;
      output_len =
          (decoded.transport_payload_offset
            + min
                (quic_payload packet decoded).size
                (max config.short_header_keep_packet_bytes (1 + info.scid.length)))
          % 2 ^ 32;
    }
evaluate-evaluate flows config announced announcing info packet decoded reach reach' parsed fills
      named turned short fits carries =
    ap (λ (r : Flows × QuicConstrictResult). (evaluate r.0 packet decoded config).1)
      (evaluate_long announced announcing config reach flows info parsed fills)
    ∙ ap (λ (r : Flows × QuicConstrictResult). r.1)
        (evaluate_short packet decoded config reach' learned state (rw turned found) matches)
    ∙ rw (turned, same) (unfold matched in ground arith)
  where
    learned : Flows
    learned = learn (make_canonical_flow announcing).0 (make_canonical_flow announcing).1 info flows

    id : IsId info.scid
    id = (parse_long_header_bounds (quic_payload announced announcing) 0 parsed).2

    entry :
        (state : FlowState) × (find (make_canonical_flow announcing).0 learned ≡ some state)
        × (expected_dcid (turn (make_canonical_flow announcing).1) state ≡ info.scid)
    entry = learn_scid _ _ info flows id named

    state : FlowState
    state = entry.0

    found : find (make_canonical_flow announcing).0 learned ≡ some state
    found = entry.1

    same : expected_dcid (turn (make_canonical_flow announcing).1) state ≡ info.scid
    same = entry.2

    matches :
        IsMatch
          (quic_payload packet decoded)
          0
          (expected_dcid (make_canonical_flow decoded).1 state)
    matches =
        rw (turned, same)
          (record {
            id_known = id.id_known;
            id_fits = omega (arith, fits);
            short = short;
            carries = carries;
          })
