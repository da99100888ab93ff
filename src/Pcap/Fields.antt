-- ===== src/Pcap/Fields.antt =====
-- The layout of the headers of a pcap file, in both byte orders, to state what
-- offline/PcapReader.cpp reads.
use pcap_constrictor_win_pac.Base.{
  ℕ, ◌+◌, ◌/◌, ◌%◌, ◌^◌, ◌<◌, ◌≡◌, refl, ◌∙◌, [], ◌∷◌, ◌++◌, map, Bytes, length, take, arith,
}
use pcap_constrictor_win_pac.Pcap.Reader.{read_u16, read_u32, byte}
use pcap_constrictor_win_pac.Pcap.Types.{
  PcapEndianness, little, big, PcapTimePrecision, microsecond, nanosecond,
}

-- A number on two bytes, and on four.
abbrev pub u16_bytes : PcapEndianness → ℕ → Bytes
u16_bytes little v = v % 256 ∷ v / 256 % 256 ∷ []
u16_bytes big v = v / 256 % 256 ∷ v % 256 ∷ []

abbrev pub u32_bytes : PcapEndianness → ℕ → Bytes
u32_bytes little v = v % 256 ∷ v / 256 % 256 ∷ v / 65536 % 256 ∷ v / 16777216 % 256 ∷ []
u32_bytes big v = v / 16777216 % 256 ∷ v / 65536 % 256 ∷ v / 256 % 256 ∷ v % 256 ∷ []

-- The number 0xa1b2c3d4 or 0xa1b23c4d.
abbrev pub magic_bytes : PcapEndianness → PcapTimePrecision → Bytes
magic_bytes order microsecond = u32_bytes order 0xa1b2c3d4
magic_bytes order nanosecond = u32_bytes order 0xa1b23c4d

-- The bytes as eight bits each.
abbrev pub cells : Bytes → Bytes
cells = map (λ b. b % 256)

-- The header of a packet, with its four fields.
pub record IsPacketHeader (order : PcapEndianness) (raw : Bytes)
    (sec fraction captured original : ℕ) : Type 0 where
  pub laid_out :
      cells raw
      ≡ u32_bytes order sec
        ++ (u32_bytes order fraction ++ (u32_bytes order captured ++ u32_bytes order original))
  pub sec_fits : sec < 2 ^ 32
  pub fraction_fits : fraction < 2 ^ 32
  pub captured_fits : captured < 2 ^ 32
  pub original_fits : original < 2 ^ 32

-- The fields of the global header behind its magic.
pub record IsGlobalHeader (order : PcapEndianness) (raw : Bytes) (major minor snaplen link : ℕ)
    : Type 0 where
  pub reserved1 : ℕ
  pub reserved2 : ℕ
  pub laid_out :
      cells raw
      ≡ cells (take 4 raw)
        ++ (u16_bytes order major
            ++ (u16_bytes order minor
                ++ (u32_bytes order reserved1
                    ++ (u32_bytes order reserved2
                        ++ (u32_bytes order snaplen ++ u32_bytes order link)))))
  pub major_fits : major < 2 ^ 16
  pub minor_fits : minor < 2 ^ 16
  pub snaplen_fits : snaplen < 2 ^ 32
  pub link_fits : link < 2 ^ 32

-- Four bytes of a longer string.
record Four (xs : Bytes) (n : ℕ) : Type 0 where
  a : ℕ
  b : ℕ
  c : ℕ
  d : ℕ
  rest : Bytes
  split : xs ≡ a ∷ b ∷ c ∷ d ∷ rest
  left : length rest ≡ n

four : (xs : Bytes) (n : ℕ) → length xs ≡ 4 + n → Four xs n
four [] n h = absurd (omega (arith, h))
four (a ∷ []) n h = absurd (omega (arith, h))
four (a ∷ b ∷ []) n h = absurd (omega (arith, h))
four (a ∷ b ∷ c ∷ []) n h = absurd (omega (arith, h))
four (a ∷ b ∷ c ∷ d ∷ rest) n h = record {
  a = a;
  b = b;
  c = c;
  d = d;
  rest = rest;
  split = refl;
  left = omega (arith, h);
}

none_left : (xs : Bytes) → length xs ≡ 0 → xs ≡ []
none_left [] h = refl
none_left (x ∷ xs) h = absurd (omega (arith, h))

read_u32-u32_bytes :
    (order : PcapEndianness) (xs : Bytes) (i : ℕ)
    → byte xs i ∷ byte xs (i + 1) ∷ byte xs (i + 2) ∷ byte xs (i + 3) ∷ []
      ≡ u32_bytes order (read_u32 order xs i)
unfolding read_u32 byte
read_u32-u32_bytes little xs i = ground arith
read_u32-u32_bytes big xs i = ground arith

read_u16-u16_bytes :
    (order : PcapEndianness) (xs : Bytes) (i : ℕ)
    → byte xs i ∷ byte xs (i + 1) ∷ [] ≡ u16_bytes order (read_u16 order xs i)
unfolding read_u16 byte
read_u16-u16_bytes little xs i = ground arith
read_u16-u16_bytes big xs i = ground arith

pub read_u32-lt : (order : PcapEndianness) (raw : Bytes) (i : ℕ) → read_u32 order raw i < 2 ^ 32
unfolding read_u32 byte
read_u32-lt little raw i = omega arith
read_u32-lt big raw i = omega arith

pub read_u16-lt : (order : PcapEndianness) (raw : Bytes) (i : ℕ) → read_u16 order raw i < 2 ^ 16
unfolding read_u16 byte
read_u16-lt little raw i = omega arith
read_u16-lt big raw i = omega arith

sixteen_cells :
    (raw : Bytes)
    → length raw ≡ 16
    → cells raw
      ≡ byte raw 0
        ∷ byte raw 1
        ∷ byte raw 2
        ∷ byte raw 3
        ∷ byte raw 4
        ∷ byte raw 5
        ∷ byte raw 6
        ∷ byte raw 7
        ∷ byte raw 8
        ∷ byte raw 9
        ∷ byte raw 10
        ∷ byte raw 11
        ∷ byte raw 12
        ∷ byte raw 13
        ∷ byte raw 14
        ∷ byte raw 15
        ∷ []
unfolding byte
sixteen_cells raw sixteen =
    let p = four raw 12 sixteen in
    let q = four p.rest 8 p.left in
    let r = four q.rest 4 q.left in
    let s = four r.rest 0 r.left in
    rw (p.split, q.split, r.split, s.split, none_left s.rest s.left) refl

-- Every string of 16 bytes is the header of a packet.
pub sixteen-IsPacketHeader :
    (order : PcapEndianness) (raw : Bytes)
    → length raw ≡ 16
    → IsPacketHeader order raw
        (read_u32 order raw 0)
        (read_u32 order raw 4)
        (read_u32 order raw 8)
        (read_u32 order raw 12)
sixteen-IsPacketHeader order raw sixteen = record {
  laid_out = sixteen_cells raw sixteen ∙ (λ i.
      read_u32-u32_bytes order raw 0 i
      ++ (read_u32-u32_bytes order raw 4 i
          ++ (read_u32-u32_bytes order raw 8 i ++ read_u32-u32_bytes order raw 12 i)));
  sec_fits = read_u32-lt order raw 0;
  fraction_fits = read_u32-lt order raw 4;
  captured_fits = read_u32-lt order raw 8;
  original_fits = read_u32-lt order raw 12;
}

header_cells :
    (raw : Bytes)
    → length raw ≡ 24
    → cells raw
      ≡ cells (take 4 raw)
        ++ (byte raw 4
            ∷ byte raw 5
            ∷ byte raw 6
            ∷ byte raw 7
            ∷ byte raw 8
            ∷ byte raw 9
            ∷ byte raw 10
            ∷ byte raw 11
            ∷ byte raw 12
            ∷ byte raw 13
            ∷ byte raw 14
            ∷ byte raw 15
            ∷ byte raw 16
            ∷ byte raw 17
            ∷ byte raw 18
            ∷ byte raw 19
            ∷ byte raw 20
            ∷ byte raw 21
            ∷ byte raw 22
            ∷ byte raw 23
            ∷ [])
unfolding byte
header_cells raw long =
    let p = four raw 20 long in
    let q = four p.rest 16 p.left in
    let r = four q.rest 12 q.left in
    let s = four r.rest 8 r.left in
    let t = four s.rest 4 s.left in
    let u = four t.rest 0 t.left in
    rw (p.split, q.split, r.split, s.split, t.split, u.split, none_left u.rest u.left) refl

-- Every string of 24 bytes has the fields of a global header.
pub all-IsGlobalHeader :
    (order : PcapEndianness) (raw : Bytes)
    → length raw ≡ 24
    → IsGlobalHeader order raw
        (read_u16 order raw 4)
        (read_u16 order raw 6)
        (read_u32 order raw 16)
        (read_u32 order raw 20)
all-IsGlobalHeader order raw long = record {
  reserved1 = read_u32 order raw 8;
  reserved2 = read_u32 order raw 12;
  laid_out = header_cells raw long ∙ (λ i.
      cells (take 4 raw)
      ++ (read_u16-u16_bytes order raw 4 i
          ++ (read_u16-u16_bytes order raw 6 i
              ++ (read_u32-u32_bytes order raw 8 i
                  ++ (read_u32-u32_bytes order raw 12 i
                      ++ (read_u32-u32_bytes order raw 16 i
                          ++ read_u32-u32_bytes order raw 20 i))))));
  major_fits = read_u16-lt order raw 4;
  minor_fits = read_u16-lt order raw 6;
  snaplen_fits = read_u32-lt order raw 16;
  link_fits = read_u32-lt order raw 20;
}

pub first_cells :
    (raw : Bytes) → length raw ≡ 24 → cells (take 4 raw) ≡ u32_bytes big (read_u32 big raw 0)
unfolding byte
first_cells raw long =
    let p = four raw 20 long in
    let shape : cells (take 4 raw) ≡ byte raw 0 ∷ byte raw 1 ∷ byte raw 2 ∷ byte raw 3 ∷ [] =
      rw p.split refl in
    shape ∙ read_u32-u32_bytes big raw 0
