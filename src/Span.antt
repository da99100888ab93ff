-- ===== src/Span.antt =====
-- `std::span<const std::byte>`: what the memory holds at and behind the span's start, and the
-- number of bytes that belong to it. A read behind the end yields whatever the memory holds
-- there, so a function that reads in range only has the same result for every such memory.
-- HasBytes, ReadBe16, ReadLe32 of decode/PacketDecode.cpp and ReadBe32 of
-- policy/QuicConstrictor.cpp.
pub mod Locality
use pcap_constrictor_win_pac.Base.{
  ℕ, zero, suc, ◌+◌, ◌-◌, ◌*◌, ◌%◌, Bool, ◌&&◌, List, [], ◌∷◌, leb, Bytes, length, get_or,
}

pub record Span : Type 0 where
  pub memory : ℕ → ℕ
  pub size : ℕ

unfoldable pub of_list : Bytes → Span
of_list xs = record { memory = λ i. get_or xs i 0; size = length xs }

-- `std::to_integer<std::uint8_t>(bytes[offset])`
unfoldable pub byte_at : Span → ℕ → ℕ
byte_at s i = s.memory i % 256

unfoldable pub subspan : Span → ℕ → ℕ → Span
subspan s offset count = record { memory = λ i. s.memory (offset + i); size = count }

unfoldable pub has_bytes : Span → ℕ → ℕ → Bool
has_bytes s offset count = leb offset s.size && leb count (s.size - offset)

unfoldable pub read_be16 : Span → ℕ → ℕ
read_be16 s offset = byte_at s offset * 256 + byte_at s (offset + 1)

unfoldable pub read_be32 : Span → ℕ → ℕ
read_be32 s offset =
    byte_at s offset * 16777216
    + byte_at s (offset + 1) * 65536
    + byte_at s (offset + 2) * 256
    + byte_at s (offset + 3)

unfoldable pub read_le32 : Span → ℕ → ℕ
read_le32 s offset =
    byte_at s offset
    + byte_at s (offset + 1) * 256
    + byte_at s (offset + 2) * 65536
    + byte_at s (offset + 3) * 16777216

-- The `count` bytes from `offset` on, as `std::copy_n` copies them.
unfoldable pub copy_bytes : Span → ℕ → ℕ → Bytes
copy_bytes s offset zero = []
copy_bytes s offset (suc count) = byte_at s offset ∷ copy_bytes s (offset + 1) count
