-- ===== src/Quic/Bounds.antt =====
-- What a parsed QUIC long header satisfies: it lies inside the payload, and its ids are well formed.
use pcap_constrictor_win_pac.Base.{
  ℕ, zero, suc, ◌+◌, ◌-◌, ◌/◌, ◌%◌, ◌<◌, ◌≤◌, ◌≡◌, refl, ap, true, some, bind-eq-some, arith,
  length, length-append, replicate, Option-cases, Bool-cases, inl, inr, ◌==◌,
}
use native.Mathlib.Nat.{one-le-pow}
use pcap_constrictor_win_pac.Quic.Parse.{
  LongHeaderInfo, read_connection_id, read_varint, varint_length, skip_measured, packet_end,
  header_fields, parse_long_header,
}
use pcap_constrictor_win_pac.Quic.Types.{ConnectionId}
use pcap_constrictor_win_pac.Span.Locality.{has_bytes-true, length-copy_bytes}
use pcap_constrictor_win_pac.Span.{Span, byte_at, copy_bytes}

pub record IsId (cid : ConnectionId) : Type 0 where
  pub id_known : cid.known ≡ true
  pub id_short : cid.length ≤ 20
  pub id_array : length cid.bytes ≡ 20

length-replicate : (n a : ℕ) → length (replicate n a) ≡ n
length-replicate zero a = refl
length-replicate (suc n) a = ap suc (length-replicate n a)

module _ (payload : Span) where
  pub read_connection_id_bounds :
      (offset : ℕ) {cid : ConnectionId} {end : ℕ}
      → read_connection_id payload offset ≡ some (cid, end)
      → IsId cid × (end ≡ offset + 1 + cid.length) × (end ≤ payload.size)
  unfolding read_connection_id
  read_connection_id_bounds offset e = ground (
    arith,
    has_bytes-true payload (offset + 1) (byte_at payload offset),
    length-append (copy_bytes payload (offset + 1) (byte_at payload offset))
        (replicate (20 - byte_at payload offset) 0),
    length-copy_bytes payload (offset + 1) (byte_at payload offset),
    length-replicate (20 - byte_at payload offset) 0,
  )

  pub varint_length-pos : (first : ℕ) → 0 < varint_length first
  unfolding varint_length
  varint_length-pos first = one-le-pow (first / 64) 2 (omega arith)

  pub read_varint_bounds :
      (offset : ℕ) {value end : ℕ}
      → read_varint payload offset ≡ some (value, end)
      → (offset < end) × (end ≤ payload.size)
  unfolding read_varint
  read_varint_bounds offset e = ground (
    arith,
    has_bytes-true payload offset (varint_length (byte_at payload offset)),
    varint_length-pos (byte_at payload offset),
  )

  skip_measured_bounds :
      (offset : ℕ) {end : ℕ}
      → skip_measured payload offset ≡ some end
      → (offset < end) × (end ≤ payload.size)
  unfolding skip_measured
  skip_measured_bounds offset {end} e = elim (Option-cases (read_varint payload offset)) [
    | inl fails ↦ absurd (ground (arith, fails))
    | inr ((amount, behind), read) ↦
        let b = read_varint_bounds offset read in
        ground (arith, read, has_bytes-true payload behind amount)
  ]

  packet_end_bounds :
      (packet_type offset : ℕ) {end : ℕ}
      → packet_end payload packet_type offset ≡ some end
      → offset ≤ payload.size
      → (offset ≤ end) × (end ≤ payload.size)
  unfolding packet_end
  packet_end_bounds packet_type offset {end} e h = elim (Bool-cases (packet_type == 0)) [
    | inl initial ↦
        let (behind, read, rest) =
          bind-eq-some (skip_measured payload offset) (skip_measured payload)
            (rw (initial, packet_end) at e) in
        let b = skip_measured_bounds offset read in
        let c = skip_measured_bounds behind rest in omega arith
    | inr other ↦ ground (arith, skip_measured_bounds offset {end = end})
  ]

  header_fields_bounds :
      (start : ℕ) {info : LongHeaderInfo}
      → header_fields payload start ≡ some info
      → (7 ≤ info.total_size)
        × (start + info.total_size ≤ payload.size)
        × IsId info.scid
        × IsId info.dcid
  unfolding header_fields
  header_fields_bounds start {info} e =
      elim (Option-cases (read_connection_id payload (start + 5))) [
        | inl no_dcid ↦ absurd (ground (arith, no_dcid))
        | inr ((dcid, a), read_dcid) ↦ elim (Option-cases (read_connection_id payload a)) [
          | inl no_scid ↦ absurd (ground (arith, read_dcid, no_scid))
          | inr ((scid, b), read_scid) ↦
              elim (Option-cases (packet_end payload (byte_at payload start / 16 % 4) b)) [
                | inl no_end ↦ absurd (ground (arith, read_dcid, read_scid, no_end))
                | inr (end, read_end) ↦
                    let p = read_connection_id_bounds (start + 5) read_dcid in
                    let q = read_connection_id_bounds a read_scid in
                    let r = packet_end_bounds (byte_at payload start / 16 % 4) b read_end q.2 in
                    ground (arith, read_dcid, read_scid, read_end)
              ]
        ]
      ]

  -- A long header that is parsed takes at least seven bytes and ends inside the payload, and both
  -- of its connection ids are known and at most 20 bytes long.
  pub parse_long_header_bounds :
      (start : ℕ) {info : LongHeaderInfo}
      → parse_long_header payload start ≡ some info
      → (7 ≤ info.total_size)
        × (start + info.total_size ≤ payload.size)
        × IsId info.scid
        × IsId info.dcid
  unfolding parse_long_header
  parse_long_header_bounds start {info} e = header_fields_bounds start {info = info} (ground arith)
