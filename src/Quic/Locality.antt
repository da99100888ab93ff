-- ===== src/Quic/Locality.antt =====
-- QuicConstrictor::Evaluate reads in range.
use pcap_constrictor_win_pac.Base.{
  ℕ, zero, suc, ◌+◌, ◌-◌, ◌*◌, ◌/◌, ◌%◌, ◌>>=◌, ◌^◌, ◌≤◌, ◌≡◌, refl, ap, ap₂, sym, ◌∙◌, Bool, true,
  false, not, ◌&&◌, ◌||◌, Option, none, some, ◌==◌, ltb, get_or, if◌then◌else◌, Bool-cases, ltb→lt,
  max, inl, inr, arith,
}
use pcap_constrictor_win_pac.Base.Table.{find}
use pcap_constrictor_win_pac.Decode.Types.{PacketDecodeResult}
use pcap_constrictor_win_pac.Policy.Config.{QuicOptions}
use pcap_constrictor_win_pac.Quic.Bounds.{varint_length-pos}
use pcap_constrictor_win_pac.Quic.Evaluate.{
  LongWalk, behind, broken, learn, long_loop, expected_dcid, matched, match_dcid, match_unknown,
  match_short, after_long, quic_payload, is_candidate, long_walk, evaluate,
}
use pcap_constrictor_win_pac.Quic.Flow.{make_canonical_flow}
use pcap_constrictor_win_pac.Quic.Output.{long_walk-inside}
use pcap_constrictor_win_pac.Quic.Parse.{
  is_long_header, is_short_header_compatible, read_connection_id, varint_loop, varint_length,
  read_varint, skip_measured, packet_end, header_fields, parse_long_header, equal_bytes,
  connection_id_matches,
}
use pcap_constrictor_win_pac.Quic.Types.{
  plain, long_header, not_applicable, malformed_fallback, dcid_mismatch_fallback,
  unknown_cid_fallback, ConnectionId, FlowKey, FlowDirection, FlowState, Flows, flow_eq,
}
use pcap_constrictor_win_pac.Span.Locality.{
  Agree, byte_at-Agree, has_bytes-Agree, has_bytes-true, read_be32-Agree, copy_bytes-Agree,
  subspan-Agree,
}
use pcap_constrictor_win_pac.Span.{Span, has_bytes, byte_at, subspan}

module _ {s t : Span} (a : Agree s t) where
  read_connection_id-Agree :
      (offset : ℕ) → read_connection_id s offset ≡ read_connection_id t offset
  unfolding read_connection_id
  read_connection_id-Agree offset = ground (
    arith,
    has_bytes-true s offset 1,
    has_bytes-Agree a offset 1,
    byte_at-Agree a offset,
    has_bytes-true s (offset + 1) (byte_at s offset),
    has_bytes-Agree a (offset + 1) (byte_at s offset),
    copy_bytes-Agree a (offset + 1) (byte_at s offset),
  )

  varint_loop-Agree :
      (count offset value : ℕ)
      → offset + count ≤ s.size
      → varint_loop count s offset value ≡ varint_loop count t offset value
  unfolding varint_loop
  varint_loop-Agree zero offset value h = refl
  varint_loop-Agree (suc count) offset value h =
      varint_loop-Agree count (offset + 1) _ (omega arith)
      ∙ ap (λ b. varint_loop count t (offset + 1) ((value * 256 + b) % 2 ^ 64))
          (byte_at-Agree a offset (omega arith))

  read_varint-Agree : (offset : ℕ) → read_varint s offset ≡ read_varint t offset
  unfolding read_varint
  read_varint-Agree offset = elim (Bool-cases (has_bytes s offset 1)) [
    | inr e ↦ rw (← has_bytes-Agree a offset 1, e) refl
    | inl e ↦
        let first = byte_at s offset in
        let same = byte_at-Agree a offset (omega (arith, has_bytes-true s offset 1 e)) in
        let size = varint_length first in
        rw (← has_bytes-Agree a offset 1, e, ← same, ← has_bytes-Agree a offset size)
          (elim (Bool-cases (has_bytes s offset size)) [
            | inr f ↦ rw f refl
            | inl f ↦ rw f (
                ap (λ v. some (v, offset + size))
                  (varint_loop-Agree (size - 1) (offset + 1) (first % 64)
                    (omega (arith, has_bytes-true s offset size f, varint_length-pos s first))))
          ])
  ]

  skip_measured-Agree : (offset : ℕ) → skip_measured s offset ≡ skip_measured t offset
  unfolding skip_measured
  skip_measured-Agree offset = λ i. (do
    (amount, next) ← read_varint-Agree offset i
    if ltb (a.same_size i) amount || not (has_bytes-Agree a next amount i)
        then none
        else some (next + amount))

  packet_end-Agree :
      (packet_type offset : ℕ) → packet_end s packet_type offset ≡ packet_end t packet_type offset
  unfolding packet_end
  packet_end-Agree packet_type offset = λ i.
      if packet_type == 0
      then (skip_measured-Agree offset i >>= λ next. skip_measured-Agree next i)
      else if packet_type == 3
      then some (a.same_size i)
      else skip_measured-Agree offset i

  header_fields-Agree :
      (start : ℕ) → start + 7 ≤ s.size → header_fields s start ≡ header_fields t start
  unfolding header_fields
  header_fields-Agree start h = λ i. (do
    let packet_type = byte_at-Agree a start (omega arith) i / 16 % 4
    (dcid, behind_dcid) ← read_connection_id-Agree (start + 5) i
    (scid, behind_scid) ← read_connection_id-Agree behind_dcid i
    end ← packet_end-Agree packet_type behind_scid i
    some (record {
      total_size = end - start;
      packet_type = packet_type;
      version = read_be32-Agree a (start + 1) (omega arith) i;
      dcid = dcid;
      scid = scid;
    }))

  parse_long_header-Agree : (start : ℕ) → parse_long_header s start ≡ parse_long_header t start
  unfolding parse_long_header
  parse_long_header-Agree start = ground (
    arith,
    has_bytes-true s start 7,
    has_bytes-Agree a start 7,
    byte_at-Agree a start,
    read_be32-Agree a (start + 1),
    header_fields-Agree start,
  )

  equal_bytes-Agree :
      (count : ℕ) (cid : ConnectionId) (index offset : ℕ)
      → offset + count ≤ s.size
      → equal_bytes count cid index s offset ≡ equal_bytes count cid index t offset
  unfolding equal_bytes
  equal_bytes-Agree zero cid index offset h = refl
  equal_bytes-Agree (suc count) cid index offset h =
      ap₂ (λ b rest. get_or cid.bytes index 0 == b && rest) (byte_at-Agree a offset (omega arith))
        (equal_bytes-Agree count cid (index + 1) (offset + 1) (omega arith))

  connection_id_matches-Agree :
      (cid : ConnectionId) (offset : ℕ)
      → offset + cid.length ≤ s.size
      → connection_id_matches cid s offset ≡ connection_id_matches cid t offset
  unfolding connection_id_matches
  connection_id_matches-Agree cid offset h =
      λ i. if not cid.known then false else equal_bytes-Agree cid.length cid 0 offset h i

  module _ (key : FlowKey) (direction : FlowDirection) where
    long_loop-Agree :
        (fuel : ℕ) (flows : Flows) (offset : ℕ) (saw : Bool)
        → long_loop fuel key direction s flows offset saw
          ≡ long_loop fuel key direction t flows offset saw
    unfolding long_loop
    long_loop-Agree zero flows offset saw = refl
    long_loop-Agree (suc fuel) flows offset saw = elim (Bool-cases (ltb offset s.size)) [
      | inr e ↦
          let over : ltb offset t.size ≡ false = ap (ltb offset) (sym a.same_size) ∙ e in
          rw (e, over) refl
      | inl e ↦ λ i.
          (let parsed : LongWalk = elim (parse_long_header-Agree offset i) [
            | none ↦ broken flows
            | some info ↦
                long_loop-Agree fuel (learn key direction info flows) (offset + info.total_size)
                  true i
          ] in
            if ltb offset (a.same_size i)
              && is_long_header (byte_at-Agree a offset (ltb→lt offset s.size e) i)
            then parsed
            else behind flows offset saw)
    ]

  module _ (config : QuicOptions) (decoded : PacketDecodeResult) where
    matched-Agree :
        (offset keep : ℕ) → matched decoded s offset keep ≡ matched decoded t offset keep
    unfolding matched
    matched-Agree offset keep = rw a.same_size refl

    match_dcid-Agree :
        (offset : ℕ) (dcid : ConnectionId)
        → match_dcid config decoded s offset dcid ≡ match_dcid config decoded t offset dcid
    unfolding match_dcid
    match_dcid-Agree offset dcid = elim (Bool-cases (has_bytes s offset (1 + dcid.length))) [
      | inr e ↦ rw (← has_bytes-Agree a offset (1 + dcid.length), e) refl
      | inl e ↦
          let inside = has_bytes-true s offset (1 + dcid.length) e in
          λ i.
            if not (has_bytes-Agree a offset (1 + dcid.length) i)
            then plain malformed_fallback
            else if not (connection_id_matches-Agree dcid (offset + 1) (omega arith) i)
            then plain dcid_mismatch_fallback
            else matched-Agree offset (max config.short_header_keep_packet_bytes (1 + dcid.length))
                i
    ]

    match_unknown-Agree :
        (offset : ℕ) → match_unknown config decoded s offset ≡ match_unknown config decoded t offset
    unfolding match_unknown
    match_unknown-Agree offset = λ i.
        if config.require_dcid_match || not config.allow_short_header_without_known_dcid
        then plain unknown_cid_fallback
        else matched-Agree offset (max config.short_header_keep_packet_bytes 1) i

    match_short-Agree :
        (offset : ℕ) (direction : FlowDirection) (flow : Option FlowState)
        → match_short config decoded s offset direction flow
          ≡ match_short config decoded t offset direction flow
    unfolding match_short
    match_short-Agree offset direction none = match_unknown-Agree offset
    match_short-Agree offset direction (some flow) = λ i.
        (let dcid = expected_dcid direction flow in
          if not dcid.known then match_unknown-Agree offset i else match_dcid-Agree offset dcid i)

    after_long-Agree :
        (flow : FlowKey × FlowDirection) (walk : LongWalk)
        → ((after : Flows) (end : ℕ) (saw : Bool) → walk ≡ behind after end saw → end ≤ s.size)
        → after_long config decoded s flow walk ≡ after_long config decoded t flow walk
    unfolding after_long
    after_long-Agree flow (broken flows) inside = refl
    after_long-Agree (key, direction) (behind flows offset saw) inside =
        elim (Bool-cases (offset == s.size)) [
          | inl e ↦
              let over : (offset == t.size) ≡ true = ap (λ n. offset == n) (sym a.same_size) ∙ e in
              rw (e, over) refl
          | inr e ↦
              let here = inside flows offset saw refl in
              λ i.
                if offset == a.same_size i
                then (flows, plain (if saw then long_header else not_applicable))
                else if not (is_short_header_compatible (byte_at-Agree a offset (ground arith) i))
                then (flows, plain (if saw then malformed_fallback else not_applicable))
                else (flows, match_short-Agree offset direction (find key flows) i)
        ]

module _ {s t : Span} (a : Agree s t) (decoded : PacketDecodeResult)
    (inside : decoded.transport_payload_offset + decoded.transport_payload_length ≤ s.size) where
  quic_payload-Agree : Agree (quic_payload s decoded) (quic_payload t decoded)
  unfolding quic_payload
  quic_payload-Agree =
      subspan-Agree a decoded.transport_payload_offset decoded.transport_payload_length inside

  long_walk-Agree : (flows : Flows) → long_walk s decoded flows ≡ long_walk t decoded flows
  unfolding long_walk
  long_walk-Agree flows = λ i.
      (let (key, direction) = make_canonical_flow decoded in
        long_loop-Agree quic_payload-Agree key direction (quic_payload-Agree.same_size i) flows 0
          false i)

  walked-Agree :
      (flows : Flows) (config : QuicOptions)
      → let flow = make_canonical_flow decoded in
        after_long config decoded (quic_payload s decoded) flow (long_walk s decoded flows)
        ≡ after_long config decoded (quic_payload t decoded) flow (long_walk t decoded flows)
  walked-Agree flows config =
      after_long-Agree quic_payload-Agree config decoded (make_canonical_flow decoded)
        (long_walk s decoded flows)
        (λ after end saw e.
          long_walk-inside flows s decoded {after = after} {end = end} {seen = saw} e)
      ∙ ap (after_long config decoded (quic_payload t decoded) (make_canonical_flow decoded))
          (long_walk-Agree flows)

-- QuicConstrictor::Evaluate reads no byte outside the packet: for two memories that agree on the
-- bytes of the packet, the results and the tables are equal.
pub evaluate-Agree :
    {s t : Span} (flows : Flows) (decoded : PacketDecodeResult) (config : QuicOptions)
    → Agree s t
    → evaluate flows s decoded config ≡ evaluate flows t decoded config
unfolding evaluate quic_payload subspan
evaluate-Agree {s} {t} flows decoded config a =
    let offset = decoded.transport_payload_offset in
    let length = decoded.transport_payload_length in
    elim (Bool-cases (ltb s.size offset || ltb (s.size - offset) length)) [
      | inl e ↦
          let over : ltb t.size offset || ltb (t.size - offset) length ≡ true =
            ap (λ n. ltb n offset || ltb (n - offset) length) (sym a.same_size) ∙ e in
          rw (e, over) refl
      | inr e ↦ λ i.
          if not (is_candidate decoded config)
          then (flows, plain not_applicable)
          else if ltb (a.same_size i) offset || ltb (a.same_size i - offset) length
          then (flows, plain malformed_fallback)
          else if length == 0
          then (flows, plain not_applicable)
          else walked-Agree a decoded (ground arith) flows config i
    ]
