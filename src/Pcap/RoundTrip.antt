-- ===== src/Pcap/RoundTrip.antt =====
-- PcapReader reads back what PcapWriter writes.
use pcap_constrictor_win_pac.Base.{
  ℕ, ◌+◌, ◌-◌, ◌*◌, ◌/◌, ◌%◌, ◌^◌, ◌<◌, ◌≤◌, ◌≡◌, refl, max, true, false, none, some, [], ◌∷◌, ◌++◌,
  ltb, ◌==◌, Bytes, length, arith, bytes_beq, ap, subst, ◌∙◌,
}
use pcap_constrictor_win_pac.Pcap.Bounds.{read_exact-append, read_next_lem}
use pcap_constrictor_win_pac.Pcap.Layout.{header_bytes, packet_bytes}
use pcap_constrictor_win_pac.Pcap.Reader.{
  PcapReader, clear, read_exact, byte, read_u16, read_u32, read_data, read_open, read_next,
  detect_magic, parse_header, open_header, open_content, open_reader,
}
use pcap_constrictor_win_pac.Policy.Packet.{CapturedPacket}
use pcap_constrictor_win_pac.Pcap.Types.{
  ClassicPcapGlobalHeader, PcapEndianness, SystemClock, PcapPacketRecord, little, microsecond,
}
use pcap_constrictor_win_pac.Pcap.Writer.{le16, le32, ts_sec, ts_usec}
use pcap_constrictor_win_pac.Decode.Types.{ethernet}
use pcap_constrictor_win_pac.Span.{copy_bytes}
use pcap_constrictor_win_pac.Span.Locality.{length-copy_bytes}

read_u32-le32 : (a : ℕ) (rest : Bytes) → read_u32 little (le32 a ++ rest) 0 ≡ a % 2 ^ 32
unfolding read_u32 byte le32
read_u32-le32 a rest = omega arith

read_u16-le16 : (a : ℕ) (rest : Bytes) → read_u16 little (le16 a ++ rest) 0 ≡ a % 2 ^ 16
unfolding read_u16 byte le16
read_u16-le16 a rest = omega arith

-- The header that the reader takes from the writer's 24 bytes.
abbrev pub written_header : ℕ → ClassicPcapGlobalHeader
written_header snaplen = record {
  magic_bytes = 212 ∷ 195 ∷ 178 ∷ 161 ∷ [];
  endianness = little;
  time_precision = microsecond;
  version_major = 2;
  version_minor = 4;
  reserved1 = 0;
  reserved2 = 0;
  snaplen = snaplen;
  link_type = 1;
}

module _ (snaplen : ℕ) where
  abbrev reassembled : ℕ
  reassembled =
      snaplen % 256 % 256
      + snaplen / 256 % 256 % 256 * 256
      + snaplen / 65536 % 256 % 256 * 65536
      + snaplen / 16777216 % 256 % 256 * 16777216

  reassembled_lem : snaplen < 2 ^ 32 → reassembled ≡ snaplen
  reassembled_lem fits = omega arith

  parse_header_lem :
      snaplen < 2 ^ 32
      → parse_header (header_bytes snaplen ethernet) little microsecond ≡ written_header snaplen
  unfolding parse_header read_u32 read_u16 byte le16 le32
  parse_header_lem fits = ap (λ n. record (written_header 0) { snaplen = n }) (reassembled_lem fits)

  open_header_lem :
      (r : PcapReader) (rest : Bytes)
      → 0 < snaplen
      → snaplen < 2 ^ 32
      → open_header r (header_bytes snaplen ethernet) rest ≡ (
        record r {
          global_header = written_header snaplen;
          stream = some rest;
          next_input_offset = 24;
        },
        true,
      )
  unfolding open_header detect_magic bytes_beq read_u32 byte le16 le32
  open_header_lem r rest pos fits =
      let nonzero : (reassembled == 0) ≡ false = ground (arith, reassembled_lem fits) in
      rw (nonzero, parse_header_lem fits) refl

abbrev pub opened : ℕ → ℕ → Bytes → PcapReader
opened snaplen size rest = record {
  stream = some rest;
  global_header = written_header snaplen;
  file_size = size;
  next_input_offset = 24;
  next_packet_index = 0;
  error = none;
  incomplete_tail_info = none;
}

-- PcapReader opens every file below 2^64 bytes that starts with the writer's global header for
-- Ethernet, with a snap length that is not 0 and fits 32 bits: it reads that header back and leaves
-- the rest unread.
pub open_reader-header_bytes :
    (reader : PcapReader) (snaplen size : ℕ) (rest : Bytes)
    → 0 < snaplen
    → snaplen < 2 ^ 32
    → size < 2 ^ 64
    → open_reader reader (record {
      reported_size = some size;
      content = some (header_bytes snaplen ethernet ++ rest);
    })
      ≡ (opened snaplen size rest, true)
unfolding open_reader open_content read_exact le16 le32 clear
open_reader-header_bytes reader snaplen size rest pos fits small =
    let fair : ltb (2 ^ 64 - 1) size ≡ false = ground arith in
    rw (fair, open_header_lem snaplen _ rest pos fits) refl

-- What ReadNext makes of a packet that was written.
abbrev pub reread : SystemClock → PcapReader → CapturedPacket → ℕ → PcapPacketRecord
reread clock r p incl_len = record {
  packet_index = r.next_packet_index;
  header_offset = r.next_input_offset;
  data_offset = r.next_input_offset + 16;
  ts_sec = ts_sec clock p;
  ts_fraction = ts_usec clock p;
  captured_length = incl_len;
  original_length = max p.packet.original_len incl_len;
  bytes = copy_bytes p.packet.view_data 0 incl_len;
}

abbrev pub advanced : PcapReader → ℕ → Bytes → PcapReader
advanced r incl_len rest = record r {
  stream = some rest;
  next_input_offset = r.next_input_offset + 16 + incl_len;
  next_packet_index = r.next_packet_index + 1;
}

module _ (order : PcapEndianness) (is_little : order ≡ little) (a b c d : ℕ) where
  abbrev four : Bytes
  four = le32 a ++ (le32 b ++ (le32 c ++ le32 d))

  four_lem :
      (read_u32 order four 0 ≡ a % 2 ^ 32)
      × (read_u32 order four 4 ≡ b % 2 ^ 32)
      × (read_u32 order four 8 ≡ c % 2 ^ 32)
      × (read_u32 order four 12 ≡ d % 2 ^ 32)
  unfolding read_u32 byte le32
  four_lem = rw is_little (omega arith, omega arith, omega arith, omega arith)

module _ (r : PcapReader) (raw bytes rest : Bytes) (n m sec usec : ℕ) where
  read_data_lem :
      read_u32 r.global_header.endianness raw 0 ≡ sec
      → read_u32 r.global_header.endianness raw 4 ≡ usec
      → read_u32 r.global_header.endianness raw 8 ≡ n
      → read_u32 r.global_header.endianness raw 12 ≡ m
      → n ≤ m
      → length bytes ≡ n
      → r.next_input_offset + (16 + n + length rest) ≡ r.file_size
      → read_data r raw (bytes ++ rest) ≡ (
        advanced r n rest,
        some (record {
          packet_index = r.next_packet_index;
          header_offset = r.next_input_offset;
          data_offset = r.next_input_offset + 16;
          ts_sec = sec;
          ts_fraction = usec;
          captured_length = n;
          original_length = m;
          bytes = bytes;
        }),
      )
  unfolding read_data
  read_data_lem s u c o le exact whole =
      let fits : ltb m n ≡ false = ground arith in
      let inside : ltb (r.file_size - (r.next_input_offset + 16)) n ≡ false = ground arith in
      let taken : read_exact n (bytes ++ rest) ≡ some (bytes, rest) =
        subst (λ k. read_exact k (bytes ++ rest) ≡ some (bytes, rest)) exact
          (read_exact-append bytes rest) in
      rw (c, o, fits, inside, taken, c, o, s, u) refl

  read_open_lem :
      length raw ≡ 16
      → r.next_input_offset + (16 + n + length rest) ≡ r.file_size
      → read_open r (raw ++ (bytes ++ rest)) ≡ read_data r raw (bytes ++ rest)
  unfolding read_open
  read_open_lem exact whole =
      let more : (r.next_input_offset == r.file_size) ≡ false = ground arith in
      let inside : ltb r.file_size r.next_input_offset ≡ false = ground arith in
      let long : ltb (r.file_size - r.next_input_offset) 16 ≡ false = ground arith in
      let taken : read_exact 16 (raw ++ (bytes ++ rest)) ≡ some (raw, bytes ++ rest) =
        subst (λ k. read_exact k (raw ++ (bytes ++ rest)) ≡ some (raw, bytes ++ rest)) exact
          (read_exact-append raw (bytes ++ rest)) in
      rw (more, inside, long, taken) refl

-- ReadNext on a little-endian stream that starts with a packet as PcapWriter lays it out returns
-- that packet: its seconds and microseconds, its length, its original length and its bytes; and it
-- leaves what follows unread.
pub read_next-packet_bytes :
    (clock : SystemClock) (r : PcapReader) (p : CapturedPacket) (incl_len : ℕ) (rest : Bytes)
    → incl_len < 2 ^ 32
    → p.packet.original_len < 2 ^ 32
    → r.error ≡ none
    → r.global_header.endianness ≡ little
    → r.stream ≡ some (packet_bytes clock p incl_len ++ rest)
    → r.next_input_offset + (16 + incl_len + length rest) ≡ r.file_size
    → read_next r ≡ (advanced r incl_len rest, some (reread clock r p incl_len))
unfolding le32 ts_sec ts_usec
read_next-packet_bytes clock r p n rest fits orig clean order here whole =
    let raw =
      four r.global_header.endianness order (ts_sec clock p) (ts_usec clock p) n
        (max p.packet.original_len n) in
    let bytes = copy_bytes p.packet.view_data 0 n in
    let (s, u, c, o) =
      four_lem r.global_header.endianness order (ts_sec clock p) (ts_usec clock p) n
        (max p.packet.original_len n) in
    read_next_lem r _ clean here
    ∙ read_open_lem r raw bytes rest n (max p.packet.original_len n) 0 0 refl whole
    ∙ read_data_lem r raw bytes rest n (max p.packet.original_len n) (ts_sec clock p)
        (ts_usec clock p) (s ∙ ground arith) (u ∙ ground arith) (c ∙ ground arith)
        (o ∙ ground arith) (ground arith) (length-copy_bytes _ 0 n) whole
