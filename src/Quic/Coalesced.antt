-- ===== src/Quic/Coalesced.antt =====
-- QuicConstrictor::Evaluate on a payload of several long headers.
use pcap_constrictor_win_pac.Base.{
  ℕ, ◌+◌, ◌≡◌, refl, ap, ◌∙◌, true, false, Bool, List, [], ◌∷◌, length, ◌==◌, if◌then◌else◌, arith,
}
use pcap_constrictor_win_pac.Base.Table.{find_or, store, find-store}
use pcap_constrictor_win_pac.Decode.Types.{PacketDecodeResult}
use pcap_constrictor_win_pac.Policy.Config.{QuicOptions}
use pcap_constrictor_win_pac.Quic.Evaluate.{
  behind, expected_dcid, learn, long_loop, after_long, quic_payload, long_walk, evaluate,
}
use pcap_constrictor_win_pac.Quic.Flow.{make_canonical_flow}
use pcap_constrictor_win_pac.Quic.Loop.{long_loop_lem, goes_on}
use pcap_constrictor_win_pac.Quic.Parse.{LongHeaderInfo, is_long_header}
use pcap_constrictor_win_pac.Quic.RoundTrip.{parse_long_header-long_header_bytes}
use pcap_constrictor_win_pac.Quic.Steps.{Reaches, evaluate_walk}
use pcap_constrictor_win_pac.Quic.Symmetry.{turn}
use pcap_constrictor_win_pac.Quic.Types.{
  ConnectionId, FlowKey, FlowState, FlowDirection, Flows, plain, long_header, flow_eq,
  flow_key_beq_iff, empty_flow, a_to_b, b_to_a,
}
use pcap_constrictor_win_pac.Quic.Wire.{
  Lies, Lies-within, Lies-head, LongHeader, IsLongHeader, long_header_bytes, header_type, known_id,
}
use pcap_constrictor_win_pac.Span.{Span}

-- The headers, with their packets, fill the span from the offset on.
pub data Coalesced (payload : Span) : ℕ → List LongHeader → Type 0 where
  all_read : {offset : ℕ} → offset ≡ payload.size → Coalesced payload offset []
  next :
      {offset : ℕ} {h : LongHeader} {hs : List LongHeader}
      → IsLongHeader h
      → Lies payload offset (long_header_bytes h)
      → Coalesced payload (offset + length (long_header_bytes h)) hs
      → Coalesced payload offset (h ∷ hs)

-- The id under which the sender was known, or the one that it has announced last.
abbrev pub announced : ConnectionId → List LongHeader → ConnectionId
announced cid [] = cid
announced cid (h ∷ hs) = announced (if length h.scid == 0 then cid else known_id h.scid) hs

-- The id of the sender in the entry of the flow.
abbrev pub sender_id : FlowKey → FlowDirection → Flows → ConnectionId
sender_id key direction flows = expected_dcid (turn direction) (find_or key empty_flow flows)

find_or-store_flow :
    (key : FlowKey) (state : FlowState) (flows : Flows)
    → find_or key empty_flow (store key state flows) ≡ state
unfolding find_or
find_or-store_flow key state flows =
    ground (arith, find-store key key state flows, flow_key_beq_iff key key)

sender_id-learn :
    (key : FlowKey) (direction : FlowDirection) (info : LongHeaderInfo) (flows : Flows)
    → info.scid.known ≡ true
    → sender_id key direction (learn key direction info flows)
      ≡ (if info.scid.length == 0 then sender_id key direction flows else info.scid)
unfolding learn
sender_id-learn key a_to_b info flows known = rw (find_or-store_flow key, known) (ground arith)
sender_id-learn key b_to_a info flows known = rw (find_or-store_flow key, known) (ground arith)

-- Whether a header has been seen behind the others.
abbrev saw_any : Bool → List LongHeader → Bool
saw_any saw [] = saw
saw_any saw (h ∷ hs) = true

saw_any-true : (hs : List LongHeader) → saw_any true hs ≡ true
saw_any-true [] = refl
saw_any-true (h ∷ hs) = refl

module _ (key : FlowKey) (direction : FlowDirection) (payload : Span) where
  goes_on-Lies :
      (offset : ℕ) (h : LongHeader)
      → IsLongHeader h
      → Lies payload offset (long_header_bytes h)
      → goes_on key direction payload offset ≡ true
  unfolding is_long_header
  goes_on-Lies offset h w l =
      let first = Lies-head payload offset h.first_byte _ l in
      let within = Lies-within payload offset (long_header_bytes h) l in
      let high = w.high_bit in let byte = w.one_byte in rw first (ground arith)

  -- The walk reads every header, and the entry of the sender is up to date.
  long_loop-Coalesced :
      (flows : Flows) (offset : ℕ) (saw : Bool) (hs : List LongHeader)
      → Coalesced payload offset hs
      → (after : Flows) × (long_loop payload.size key direction payload flows offset saw
          ≡ behind after payload.size (saw_any saw hs))
        × (sender_id key direction after ≡ announced (sender_id key direction flows) hs)
  long_loop-Coalesced flows offset saw [] (all_read e) =
      (flows, long_loop_lem key direction payload flows offset saw ∙ ground arith, refl)
  long_loop-Coalesced flows offset saw (h ∷ hs) (next w l rest) =
      let info : LongHeaderInfo = record {
        total_size = length (long_header_bytes h);
        packet_type = header_type h;
        version = h.version;
        dcid = known_id h.dcid;
        scid = known_id h.scid;
      } in
      let learned = learn key direction info flows in
      let (after, walked, known) =
        long_loop-Coalesced learned (offset + length (long_header_bytes h)) true hs rest in
      (
        after,
        long_loop_lem key direction payload flows offset saw
            ∙ rw
                (
                  goes_on-Lies offset h w l,
                  parse_long_header-long_header_bytes payload offset h w l,
                )
                (walked ∙ ap (behind after payload.size) (saw_any-true hs)),
        known ∙ ap (λ cid. announced cid hs) (sender_id-learn key direction info flows refl),
      )

-- For a payload that long headers fill with their packets, one behind the other, laid out as RFC
-- 9000 says: all of them are walked over, whatever the table held before. The packet is reported as
-- a long header, and the entry of its flow holds for the sender the last connection id announced
-- that is not empty, or what it held if there is none.
pub evaluate-Coalesced :
    (flows : Flows) (packet : Span) (decoded : PacketDecodeResult) (config : QuicOptions)
    (h : LongHeader) (hs : List LongHeader)
    → Reaches packet decoded config
    → Coalesced (quic_payload packet decoded) 0 (h ∷ hs)
    → let (after, result) = evaluate flows packet decoded config in
      let (key, direction) = make_canonical_flow decoded in
      (result ≡ plain long_header)
      × (sender_id key direction after ≡ announced (sender_id key direction flows) (h ∷ hs))
evaluate-Coalesced flows packet decoded config h hs reaches filled =
    let (key, direction) = make_canonical_flow decoded in
    let payload = quic_payload packet decoded in
    let (after, walked, known) =
      long_loop-Coalesced key direction payload flows 0 false (h ∷ hs) filled in
    let walk : long_walk packet decoded flows ≡ behind after payload.size true =
      unfold long_walk in walked in
    let done : evaluate flows packet decoded config ≡ (after, plain long_header) =
      evaluate_walk packet decoded config reaches flows
      ∙ ap (after_long config decoded payload (key, direction)) walk
      ∙ unfold after_long in ground arith in
    rw done (refl, known)
