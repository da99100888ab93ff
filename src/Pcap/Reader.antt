-- ===== src/Pcap/Reader.antt =====
-- offline/PcapReader.cpp. The input stream is the bytes that it has not yet delivered.
use pcap_constrictor_win_pac.Base.{
  ℕ, zero, suc, ◌+◌, ◌-◌, ◌*◌, ◌%◌, ◌^◌, Bool, true, false, not, ◌||◌, Option, none, some, [], ◌∷◌,
  ltb, ◌==◌, if◌then◌else◌, Bytes, get_or, bytes_beq, take,
}
use pcap_constrictor_win_pac.Pcap.Types.{
  PcapEndianness, little, big, PcapTimePrecision, microsecond, nanosecond, ClassicPcapGlobalHeader,
  empty_header, PcapPacketRecord, PcapIncompleteTailInfo, packet_header, packet_data, ReadError,
  size_unknown, too_large, not_opened, truncated_global_header, pcapng_unsupported, bad_magic,
  zero_snaplen, bad_version, bad_link_type, past_end, truncated_packet_header,
  unreadable_packet_header, captured_exceeds_original, truncated_packet_data,
  unreadable_packet_data,
}

-- What the file system says of the input: its size and its content, where it can tell.
pub record InputFile : Type 0 where
  pub reported_size : Option ℕ
  pub content : Option Bytes

pub record PcapReader : Type 0 where
  pub stream : Option Bytes
  pub global_header : ClassicPcapGlobalHeader
  pub file_size : ℕ
  pub next_input_offset : ℕ
  pub next_packet_index : ℕ
  pub error : Option ReadError
  pub incomplete_tail_info : Option PcapIncompleteTailInfo

unfoldable pub clear : PcapReader → PcapReader
clear r = record {
  stream = none;
  global_header = empty_header;
  file_size = 0;
  next_input_offset = 0;
  next_packet_index = 0;
  error = none;
  incomplete_tail_info = none;
}

abbrev pub set_error : ReadError → PcapReader → PcapReader
set_error e r = record r { error = some e }

-- The first `n` bytes and the rest, if there are as many.
unfoldable pub read_exact : ℕ → Bytes → Option (Bytes × Bytes)
read_exact zero bytes = some ([], bytes)
read_exact (suc n) [] = none
read_exact (suc n) (b ∷ bytes) = elim (read_exact n bytes) [
  | none ↦ none
  | some (front, rest) ↦ some (b ∷ front, rest)
]

unfoldable pub byte : Bytes → ℕ → ℕ
byte bytes i = get_or bytes i 0 % 256

unfoldable pub read_u16 : PcapEndianness → Bytes → ℕ → ℕ
unfolding byte
read_u16 little bytes i = byte bytes i + byte bytes (i + 1) * 256
read_u16 big bytes i = byte bytes i * 256 + byte bytes (i + 1)

unfoldable pub read_u32 : PcapEndianness → Bytes → ℕ → ℕ
unfolding byte
read_u32 little bytes i =
    byte bytes i
    + byte bytes (i + 1) * 256
    + byte bytes (i + 2) * 65536
    + byte bytes (i + 3) * 16777216
read_u32 big bytes i =
    byte bytes i * 16777216
    + byte bytes (i + 1) * 65536
    + byte bytes (i + 2) * 256
    + byte bytes (i + 3)

unfoldable pub detect_magic : Bytes → Option (PcapEndianness × PcapTimePrecision)
detect_magic magic =
    if bytes_beq magic (0xd4 ∷ 0xc3 ∷ 0xb2 ∷ 0xa1 ∷ [])
    then some (little, microsecond)
    else if bytes_beq magic (0xa1 ∷ 0xb2 ∷ 0xc3 ∷ 0xd4 ∷ [])
    then some (big, microsecond)
    else if bytes_beq magic (0x4d ∷ 0x3c ∷ 0xb2 ∷ 0xa1 ∷ [])
    then some (little, nanosecond)
    else if bytes_beq magic (0xa1 ∷ 0xb2 ∷ 0x3c ∷ 0x4d ∷ [])
    then some (big, nanosecond)
    else none

unfoldable pub parse_header : Bytes → PcapEndianness → PcapTimePrecision → ClassicPcapGlobalHeader
unfolding read_u16 read_u32
parse_header raw endianness precision = record {
  magic_bytes = take 4 raw;
  endianness = endianness;
  time_precision = precision;
  version_major = read_u16 endianness raw 4;
  version_minor = read_u16 endianness raw 6;
  reserved1 = read_u32 endianness raw 8;
  reserved2 = read_u32 endianness raw 12;
  snaplen = read_u32 endianness raw 16;
  link_type = read_u32 endianness raw 20;
}

-- The checks on a header whose magic is known.
unfoldable pub check_header : ClassicPcapGlobalHeader → Option ReadError
check_header h =
    if not (h.version_major == 2) || not (h.version_minor == 4)
    then some (bad_version h.version_major h.version_minor)
    else if h.snaplen == 0
    then some zero_snaplen
    else if not (h.link_type == 1)
    then some (bad_link_type h.link_type)
    else none

abbrev pub fail_open : ReadError → PcapReader → PcapReader × Bool
fail_open e r = (record r { error = some e; stream = none }, false)

-- Open, on the 24 bytes of the global header and what follows them.
unfoldable pub open_header : PcapReader → Bytes → Bytes → PcapReader × Bool
unfolding parse_header check_header detect_magic
open_header r raw rest =
    if read_u32 big raw 0 == 0x0A0D0D0A
    then fail_open pcapng_unsupported r
    else elim (detect_magic (take 4 raw)) [
      | none ↦ fail_open bad_magic r
      | some (endianness, precision) ↦
          let header = parse_header raw endianness precision in
          elim (check_header header) [
            | some e ↦ fail_open e (record r { global_header = header })
            | none ↦ (
              record r { global_header = header; stream = some rest; next_input_offset = 24 },
              true,
            )
          ]
    ]

-- Open, on the content of the file.
unfoldable pub open_content : PcapReader → Bytes → PcapReader × Bool
unfolding open_header
open_content r content = elim (read_exact 24 content) [
  | none ↦ fail_open truncated_global_header r
  | some (raw, rest) ↦ open_header r raw rest
]

unfoldable pub open_reader : PcapReader → InputFile → PcapReader × Bool
unfolding clear open_content
open_reader reader file = elim file.reported_size [
  | none ↦ (set_error size_unknown (clear reader), false)
  | some size ↦
      if ltb (2 ^ 64 - 1) size
      then (set_error too_large (clear reader), false)
      else elim file.content [
        | none ↦ (set_error not_opened (record (clear reader) { file_size = size }), false)
        | some content ↦ open_content (record (clear reader) { file_size = size }) content
      ]
]

abbrev pub stop : ReadError → PcapReader → PcapReader × Option PcapPacketRecord
stop e r = (set_error e r, none)

abbrev pub packet_header_tail : ℕ → ℕ → PcapIncompleteTailInfo
packet_header_tail offset trailing = record {
  kind = packet_header;
  file_offset = offset;
  trailing_bytes = trailing;
  expected_captured_length = 0;
  available_payload_bytes = 0;
  missing_payload_bytes = 0;
}

abbrev pub packet_data_tail : ℕ → ℕ → ℕ → PcapIncompleteTailInfo
packet_data_tail data_offset captured remaining = record {
  kind = packet_data;
  file_offset = data_offset;
  trailing_bytes = 0;
  expected_captured_length = captured;
  available_payload_bytes = remaining;
  missing_payload_bytes = captured - remaining;
}

-- ReadNext, from the packet's data on.
unfoldable pub read_data : PcapReader → Bytes → Bytes → PcapReader × Option PcapPacketRecord
read_data r raw unread =
    let endianness = r.global_header.endianness in
    let captured = read_u32 endianness raw 8 in
    let original = read_u32 endianness raw 12 in
    let data_offset = r.next_input_offset + 16 in
    let remaining = r.file_size - data_offset in
    if ltb original captured
    then stop (captured_exceeds_original r.next_packet_index r.next_input_offset captured original)
        r
    else if ltb remaining captured
    then stop
        (truncated_packet_data r.next_packet_index r.next_input_offset captured remaining
          (captured - remaining))
        (record r { incomplete_tail_info = some (packet_data_tail data_offset captured remaining) })
    else elim (read_exact captured unread) [
      | none ↦ stop (unreadable_packet_data r.next_packet_index data_offset) r
      | some (bytes, rest) ↦ (
        record r {
          stream = some rest;
          next_input_offset = data_offset + captured;
          next_packet_index = r.next_packet_index + 1;
        },
        some (record {
          packet_index = r.next_packet_index;
          header_offset = r.next_input_offset;
          data_offset = data_offset;
          ts_sec = read_u32 endianness raw 0;
          ts_fraction = read_u32 endianness raw 4;
          captured_length = captured;
          original_length = original;
          bytes = bytes;
        }),
      )
    ]

-- ReadNext on an open stream without an error. After an error the stream is not read again, so
-- what a failed read takes from it is left out.
unfoldable pub read_open : PcapReader → Bytes → PcapReader × Option PcapPacketRecord
unfolding read_data
read_open r unread =
    let remaining = r.file_size - r.next_input_offset in
    if r.next_input_offset == r.file_size
    then (r, none)
    else if ltb r.file_size r.next_input_offset
    then stop (past_end r.next_input_offset) r
    else if ltb remaining 16
    then stop (truncated_packet_header r.next_input_offset remaining) (record r {
      incomplete_tail_info = some (packet_header_tail r.next_input_offset remaining);
    })
    else elim (read_exact 16 unread) [
      | none ↦ stop (unreadable_packet_header r.next_input_offset) r
      | some (raw, rest) ↦ read_data r raw rest
    ]

unfoldable pub read_next : PcapReader → PcapReader × Option PcapPacketRecord
unfolding read_open
read_next r = elim r.error [
  | some e ↦ (r, none)
  | none ↦ elim r.stream [ none ↦ (r, none) | some unread ↦ read_open r unread ]
]
