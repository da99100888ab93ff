-- ===== src/Pcap/Types.antt =====
-- The types of offline/PcapReader.hpp, and time.
use pcap_constrictor_win_pac.Base.{ℕ, ◌+◌, ◌*◌, ◌/◌, ◌≡◌, Bytes, replicate}

-- The period of `std::chrono::system_clock`, which the standard leaves to the implementation: a
-- whole number of nanoseconds that divides a microsecond (100 in MSVC, 1 in libstdc++).
pub record SystemClock : Type 0 where
  pub tick_ns : ℕ
  pub ticks_per_us : ℕ
  pub divides : tick_ns * ticks_per_us ≡ 1000

pub data PcapEndianness : Type 0 where
  little big : PcapEndianness

pub data PcapTimePrecision : Type 0 where
  microsecond nanosecond : PcapTimePrecision

pub record ClassicPcapGlobalHeader : Type 0 where
  pub magic_bytes : Bytes
  pub endianness : PcapEndianness
  pub time_precision : PcapTimePrecision
  pub version_major : ℕ
  pub version_minor : ℕ
  pub reserved1 : ℕ
  pub reserved2 : ℕ
  pub snaplen : ℕ
  pub link_type : ℕ

abbrev pub empty_header : ClassicPcapGlobalHeader
empty_header = record {
  magic_bytes = replicate 4 0;
  endianness = little;
  time_precision = microsecond;
  version_major = 0;
  version_minor = 0;
  reserved1 = 0;
  reserved2 = 0;
  snaplen = 0;
  link_type = 0;
}

pub record PcapPacketRecord : Type 0 where
  pub packet_index : ℕ
  pub header_offset : ℕ
  pub data_offset : ℕ
  pub ts_sec : ℕ
  pub ts_fraction : ℕ
  pub captured_length : ℕ
  pub original_length : ℕ
  pub bytes : Bytes

-- PcapPacketRecord::timestamp, in ticks of the system clock.
unfoldable pub timestamp : SystemClock → PcapTimePrecision → PcapPacketRecord → ℕ
timestamp clock nanosecond r = (r.ts_sec * 1000000000 + r.ts_fraction) / clock.tick_ns
timestamp clock microsecond r = (r.ts_sec * 1000000000 + r.ts_fraction * 1000) / clock.tick_ns

pub data PcapIncompleteTailKind : Type 0 where
  packet_header packet_data : PcapIncompleteTailKind

pub record PcapIncompleteTailInfo : Type 0 where
  pub kind : PcapIncompleteTailKind
  pub file_offset : ℕ
  pub trailing_bytes : ℕ
  pub expected_captured_length : ℕ
  pub available_payload_bytes : ℕ
  pub missing_payload_bytes : ℕ

-- The messages of PcapReader, with the values that their texts show.
pub data ReadError : Type 0 where
  size_unknown too_large not_opened truncated_global_header : ReadError
  pcapng_unsupported bad_magic zero_snaplen : ReadError
  bad_version : ℕ → ℕ → ReadError
  bad_link_type : ℕ → ReadError
  past_end : ℕ → ReadError
  truncated_packet_header : ℕ → ℕ → ReadError
  unreadable_packet_header : ℕ → ReadError
  captured_exceeds_original : ℕ → ℕ → ℕ → ℕ → ReadError
  truncated_packet_data : ℕ → ℕ → ℕ → ℕ → ℕ → ReadError
  unreadable_packet_data : ℕ → ℕ → ReadError
