-- ===== src/Span/Locality.antt =====
-- Reads in range do not depend on what lies behind a span. Used for every parser of packets.
use pcap_constrictor_win_pac.Base.{
  ℕ, zero, suc, ◌+◌, ◌≤◌, ◌<◌, ◌≡◌, refl, ap₂, true, false, arith, ◌∷◌, length,
}
use pcap_constrictor_win_pac.Span.{
  Span, byte_at, subspan, has_bytes, read_be16, read_be32, read_le32, copy_bytes,
}

-- The same bytes in range, with any memory behind them.
pub record Agree (s t : Span) : Type 0 where
  pub same_size : s.size ≡ t.size
  pub same_bytes : (i : ℕ) → i < s.size → byte_at s i ≡ byte_at t i

pub has_bytes-true :
    (s : Span) (offset count : ℕ) → has_bytes s offset count ≡ true → offset + count ≤ s.size
unfolding has_bytes
has_bytes-true s offset count h = ground arith

pub has_bytes-le :
    (s : Span) (offset count : ℕ) → offset + count ≤ s.size → has_bytes s offset count ≡ true
unfolding has_bytes
has_bytes-le s offset count h = ground arith

pub has_bytes-false :
    (s : Span) (offset count : ℕ) → has_bytes s offset count ≡ false → s.size < offset + count
unfolding has_bytes
has_bytes-false s offset count h = ground arith

pub byte_at-lt : (s : Span) (i : ℕ) → byte_at s i < 256
unfolding byte_at
byte_at-lt s i = omega arith

pub read_be16-lt : (s : Span) (i : ℕ) → read_be16 s i < 65536
unfolding read_be16
read_be16-lt s i = omega (arith, byte_at-lt s i, byte_at-lt s (i + 1))

pub read_be32-lt : (s : Span) (i : ℕ) → read_be32 s i < 4294967296
unfolding read_be32
read_be32-lt s i =
    omega (arith, byte_at-lt s i, byte_at-lt s (i + 1), byte_at-lt s (i + 2), byte_at-lt s (i + 3))

pub length-copy_bytes : (s : Span) (offset n : ℕ) → length (copy_bytes s offset n) ≡ n
unfolding copy_bytes
length-copy_bytes s offset zero = refl
length-copy_bytes s offset (suc n) = omega (arith, length-copy_bytes s (offset + 1) n)

module _ {s t : Span} (a : Agree s t) where
  pub byte_at-Agree : (i : ℕ) → i < s.size → byte_at s i ≡ byte_at t i
  byte_at-Agree i h = a.same_bytes i h

  pub has_bytes-Agree : (offset count : ℕ) → has_bytes s offset count ≡ has_bytes t offset count
  unfolding has_bytes
  has_bytes-Agree offset count = ground (arith, a.same_size)

  pub read_be16-Agree : (i : ℕ) → i + 2 ≤ s.size → read_be16 s i ≡ read_be16 t i
  unfolding read_be16
  read_be16-Agree i h =
      omega (arith, a.same_bytes i (omega arith), a.same_bytes (i + 1) (omega arith))

  pub read_be32-Agree : (i : ℕ) → i + 4 ≤ s.size → read_be32 s i ≡ read_be32 t i
  unfolding read_be32
  read_be32-Agree i h = omega (
    arith,
    a.same_bytes i (omega arith),
    a.same_bytes (i + 1) (omega arith),
    a.same_bytes (i + 2) (omega arith),
    a.same_bytes (i + 3) (omega arith),
  )

  pub read_le32-Agree : (i : ℕ) → i + 4 ≤ s.size → read_le32 s i ≡ read_le32 t i
  unfolding read_le32
  read_le32-Agree i h = omega (
    arith,
    a.same_bytes i (omega arith),
    a.same_bytes (i + 1) (omega arith),
    a.same_bytes (i + 2) (omega arith),
    a.same_bytes (i + 3) (omega arith),
  )

  pub copy_bytes-Agree : (i n : ℕ) → i + n ≤ s.size → copy_bytes s i n ≡ copy_bytes t i n
  unfolding copy_bytes
  copy_bytes-Agree i zero h = refl
  copy_bytes-Agree i (suc n) h =
      ap₂ ◌∷◌ (a.same_bytes i (omega arith)) (copy_bytes-Agree (i + 1) n (omega arith))

  pub subspan-Agree :
      (offset count : ℕ)
      → offset + count ≤ s.size
      → Agree (subspan s offset count) (subspan t offset count)
  unfolding subspan byte_at
  subspan-Agree offset count h = record {
    same_size = refl;
    same_bytes = λ i lt. unfold byte_at in a.same_bytes (offset + i) (omega arith);
  }
