-- ===== src/Quic/Wire.antt =====
-- The layout of QUIC numbers and long headers (RFC 9000, sections 16 and 17.2), to state what
-- ReadVarint and ParseLongHeader of policy/QuicConstrictor.cpp read.
use pcap_constrictor_win_pac.Base.{
  ℕ, zero, suc, ◌+◌, ◌-◌, ◌*◌, ◌/◌, ◌%◌, ◌^◌, ◌<◌, ◌≤◌, ◌≡◌, [], ◌∷◌, ◌++◌, Bytes, length, true,
  arith, replicate, if◌then◌else◌, ◌==◌, subst,
}
use pcap_constrictor_win_pac.Quic.Types.{ConnectionId}
use pcap_constrictor_win_pac.Span.{Span, byte_at}

-- The bytes lie in the span from the offset on.
pub data Lies (s : Span) : ℕ → Bytes → Type 0 where
  nothing : {offset : ℕ} → offset ≤ s.size → Lies s offset []
  byte :
      {offset x : ℕ} {xs : Bytes}
      → byte_at s offset ≡ x
      → Lies s (offset + 1) xs
      → Lies s offset (x ∷ xs)

pub Lies-within :
    (s : Span) (offset : ℕ) (xs : Bytes) → Lies s offset xs → offset + length xs ≤ s.size
Lies-within s offset [] (nothing h) = omega arith
Lies-within s offset (x ∷ xs) (byte e rest) = omega (arith, Lies-within s (offset + 1) xs rest)

pub Lies-append :
    (s : Span) (offset : ℕ) (xs : Bytes) {ys : Bytes}
    → Lies s offset (xs ++ ys)
    → Lies s offset xs × Lies s (offset + length xs) ys
Lies-append s offset [] {ys} l =
    (nothing (omega (arith, Lies-within s offset ys l)), subst (λ o. Lies s o ys) (omega arith) l)
Lies-append s offset (x ∷ xs) {ys} (byte e rest) =
    let split = Lies-append s (offset + 1) xs rest in
    (byte e split.0, subst (λ o. Lies s o ys) (omega arith) split.1)

pub Lies-head :
    (s : Span) (offset x : ℕ) (xs : Bytes) → Lies s offset (x ∷ xs) → byte_at s offset ≡ x
Lies-head s offset x xs (byte e rest) = e

-- The number, moved up by so many bytes.
abbrev pub shifted : ℕ → ℕ → ℕ
shifted zero a = a
shifted (suc n) a = shifted n a * 256

-- The last `n` bytes of the number, the highest first.
abbrev pub big_endian : ℕ → ℕ → Bytes
big_endian zero v = []
big_endian (suc n) v = big_endian n (v / 256) ++ (v % 256 ∷ [])

-- A number on 1, 2, 4 or 8 bytes. The two high bits of the first say which.
pub data VarintWidth : Type 0 where
  one two four eight : VarintWidth

abbrev pub width_bits : VarintWidth → ℕ
width_bits one = 0
width_bits two = 1
width_bits four = 2
width_bits eight = 3

-- How many bytes follow the first.
abbrev pub bytes_behind : VarintWidth → ℕ
bytes_behind one = 0
bytes_behind two = 1
bytes_behind four = 3
bytes_behind eight = 7

abbrev pub varint_bound : VarintWidth → ℕ
varint_bound w = 64 * shifted (bytes_behind w) 1

abbrev pub varint_bytes : VarintWidth → ℕ → Bytes
varint_bytes w v =
    (width_bits w * 64 + v / shifted (bytes_behind w) 1)
    ∷ big_endian (bytes_behind w) (v % shifted (bytes_behind w) 1)

abbrev pub id_bytes : Bytes → Bytes
id_bytes xs = length xs ∷ xs

-- The id as the source holds it.
abbrev pub known_id : Bytes → ConnectionId
known_id xs = record {
  bytes = xs ++ replicate (20 - length xs) 0;
  length = length xs;
  known = true;
}

-- Bytes behind their number.
abbrev pub measured_bytes : VarintWidth → Bytes → Bytes
measured_bytes w xs = varint_bytes w (length xs) ++ xs

-- A long header, with the rest of its packet.
pub record LongHeader : Type 0 where
  pub first_byte : ℕ
  pub version : ℕ
  pub dcid : Bytes
  pub scid : Bytes
  pub token_width : VarintWidth
  pub token : Bytes
  pub packet_width : VarintWidth
  pub packet : Bytes

abbrev pub header_type : LongHeader → ℕ
header_type h = h.first_byte / 16 % 4

-- Initial packets, of type 0, have a token.
abbrev pub body_bytes : LongHeader → Bytes
body_bytes h =
    if header_type h == 0
    then measured_bytes h.token_width h.token ++ measured_bytes h.packet_width h.packet
    else measured_bytes h.packet_width h.packet

abbrev pub long_header_bytes : LongHeader → Bytes
long_header_bytes h =
    h.first_byte
    ∷ (h.version / 16777216 % 256)
    ∷ (h.version / 65536 % 256)
    ∷ (h.version / 256 % 256)
    ∷ (h.version % 256)
    ∷ (id_bytes h.dcid ++ (id_bytes h.scid ++ body_bytes h))

-- The high bit is set, the packet is neither Retry nor a version negotiation, and every field fits
-- its place.
pub record IsLongHeader (h : LongHeader) : Type 0 where
  pub high_bit : 128 ≤ h.first_byte
  pub one_byte : h.first_byte < 256
  pub not_retry : header_type h < 3
  pub some_version : 0 < h.version
  pub version_fits : h.version < 2 ^ 32
  pub dcid_fits : length h.dcid ≤ 20
  pub scid_fits : length h.scid ≤ 20
  pub token_fits : length h.token < varint_bound h.token_width
  pub packet_fits : length h.packet < varint_bound h.packet_width
