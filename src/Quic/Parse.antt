-- ===== src/Quic/Parse.antt =====
-- ReadConnectionId, ReadVarint, ParseLongHeader and ConnectionIdMatches of
-- policy/QuicConstrictor.cpp. A `bool` with reference outputs is an `Option` of them; the caller
-- drops the outputs where the result is `false`.
use pcap_constrictor_win_pac.Base.{
  ℕ, zero, suc, ◌+◌, ◌-◌, ◌*◌, ◌/◌, ◌%◌, ◌^◌, Bool, true, false, not, ◌&&◌, ◌||◌, Option, none,
  some, ◌>>=◌, ◌++◌, ltb, ◌==◌, if◌then◌else◌, replicate, get_or,
}
use pcap_constrictor_win_pac.Quic.Types.{ConnectionId}
use pcap_constrictor_win_pac.Span.{Span, byte_at, has_bytes, read_be32, copy_bytes}

-- The high bit.
unfoldable pub is_long_header : ℕ → Bool
is_long_header first_byte = not (first_byte / 128 % 2 == 0)

-- The high bit is clear, and the fixed bit below it is set.
unfoldable pub is_short_header_compatible : ℕ → Bool
is_short_header_compatible first_byte = first_byte / 128 % 2 == 0 && not (first_byte / 64 % 2 == 0)

-- The connection id and the offset behind it.
unfoldable pub read_connection_id : Span → ℕ → Option (ConnectionId × ℕ)
read_connection_id payload offset =
    let length = byte_at payload offset in
    if not (has_bytes payload offset 1)
    then none
    else if ltb 20 length || not (has_bytes payload (offset + 1) length)
    then none
    else some (
      record {
        bytes = copy_bytes payload (offset + 1) length ++ replicate (20 - length) 0;
        length = length;
        known = true;
      },
      offset + 1 + length,
    )

-- The loop of ReadVarint over `count` more bytes.
unfoldable pub varint_loop : ℕ → Span → ℕ → ℕ → ℕ
varint_loop zero bytes offset value = value
varint_loop (suc count) bytes offset value =
    varint_loop count bytes (offset + 1) ((value * 256 + byte_at bytes offset) % 2 ^ 64)

-- `1 << (first >> 6)`
unfoldable pub varint_length : ℕ → ℕ
varint_length first = 2 ^ (first / 64)

-- The value and the offset behind it.
unfoldable pub read_varint : Span → ℕ → Option (ℕ × ℕ)
unfolding varint_loop varint_length
read_varint bytes offset =
    let first = byte_at bytes offset in
    let length = varint_length first in
    if not (has_bytes bytes offset 1)
    then none
    else if not (has_bytes bytes offset length)
    then none
    else some (varint_loop (length - 1) bytes (offset + 1) (first % 64), offset + length)

pub record LongHeaderInfo : Type 0 where
  pub total_size : ℕ
  pub packet_type : ℕ
  pub version : ℕ
  pub dcid : ConnectionId
  pub scid : ConnectionId

-- A length that is read and checked against the payload; the offset behind what it measures.
unfoldable pub skip_measured : Span → ℕ → Option ℕ
skip_measured payload offset = do
  (amount, behind) ← read_varint payload offset
  if ltb payload.size amount || not (has_bytes payload behind amount)
      then none
      else some (behind + amount)

-- The part of ParseLongHeader behind the connection ids: the offset of the packet's end.
-- Initial packets (type 0) carry a token; Retry packets (type 3) run to the end of the payload.
unfoldable pub packet_end : Span → ℕ → ℕ → Option ℕ
unfolding skip_measured
packet_end payload packet_type offset =
    if packet_type == 0
    then (do behind_token ← skip_measured payload offset; skip_measured payload behind_token)
    else if packet_type == 3
    then some payload.size
    else skip_measured payload offset

unfoldable pub header_fields : Span → ℕ → Option LongHeaderInfo
unfolding packet_end read_connection_id
header_fields payload start = do
  let packet_type = byte_at payload start / 16 % 4
  (dcid, behind_dcid) ← read_connection_id payload (start + 5)
  (scid, behind_scid) ← read_connection_id payload behind_dcid
  end ← packet_end payload packet_type behind_scid
  some (record {
    total_size = end - start;
    packet_type = packet_type;
    version = read_be32 payload (start + 1);
    dcid = dcid;
    scid = scid;
  })

unfoldable pub parse_long_header : Span → ℕ → Option LongHeaderInfo
unfolding header_fields
parse_long_header payload start =
    if not (has_bytes payload start 7)
    then none
    else if not (is_long_header (byte_at payload start))
    then none
    else if read_be32 payload (start + 1) == 0
    then none
    else header_fields payload start

-- `std::equal` over the first `count` bytes of the connection id.
unfoldable pub equal_bytes : ℕ → ConnectionId → ℕ → Span → ℕ → Bool
equal_bytes zero cid index payload offset = true
equal_bytes (suc count) cid index payload offset =
    get_or cid.bytes index 0 == byte_at payload offset
    && equal_bytes count cid (index + 1) payload (offset + 1)

unfoldable pub connection_id_matches : ConnectionId → Span → ℕ → Bool
unfolding equal_bytes
connection_id_matches cid payload offset =
    if not cid.known then false else equal_bytes cid.length cid 0 payload offset
