-- ===== src/Feed/Types.antt =====
-- stats/CaptureStats.hpp, and the counters that a decision advances.
use pcap_constrictor_win_pac.Base.{ℕ, ◌+◌, ◌%◌, ◌^◌, Bool, false, Option}
use pcap_constrictor_win_pac.Pcap.Types.{ReadError}
use pcap_constrictor_win_pac.Pcap.Writer.{WriteError}
use pcap_constrictor_win_pac.Policy.Decide.{
  DecisionReason, tls_application_data_constricted, tls_malformed_fallback, tls_no_record_fallback,
  quic_short_header_matched, quic_short_header_constricted, quic_short_header_unknown_cid_fallback,
  quic_short_header_dcid_mismatch_fallback, quic_malformed_fallback,
}

pub record CaptureStats : Type 0 where
  pub packets_total : ℕ
  pub packets_written : ℕ
  pub bytes_input : ℕ
  pub bytes_output : ℕ
  pub bytes_saved : ℕ
  pub kernel_stats_available : Bool
  pub kernel_packets : ℕ
  pub kernel_drops : ℕ
  pub receive_errors : ℕ
  pub tls_appdata_constricted : ℕ
  pub tls_fallback : ℕ
  pub quic_long_header : ℕ
  pub quic_short_matched : ℕ
  pub quic_short_constricted : ℕ
  pub quic_fallback : ℕ

abbrev pub no_stats : CaptureStats
no_stats = record {
  packets_total = 0;
  packets_written = 0;
  bytes_input = 0;
  bytes_output = 0;
  bytes_saved = 0;
  kernel_stats_available = false;
  kernel_packets = 0;
  kernel_drops = 0;
  receive_errors = 0;
  tls_appdata_constricted = 0;
  tls_fallback = 0;
  quic_long_header = 0;
  quic_short_matched = 0;
  quic_short_constricted = 0;
  quic_fallback = 0;
}

-- `a + b` on `std::uint64_t`.
unfoldable pub add64 : ℕ → ℕ → ℕ
add64 a b = (a + b) % 2 ^ 64

-- The counter of each reason, where it has one.
unfoldable pub accumulate_decision_stats : CaptureStats → DecisionReason → CaptureStats
unfolding add64
accumulate_decision_stats s tls_application_data_constricted = record s {
  tls_appdata_constricted = add64 s.tls_appdata_constricted 1;
}
accumulate_decision_stats s tls_malformed_fallback = record s {
  tls_fallback = add64 s.tls_fallback 1;
}
accumulate_decision_stats s tls_no_record_fallback = record s {
  tls_fallback = add64 s.tls_fallback 1;
}
accumulate_decision_stats s DecisionReason.quic_long_header = record s {
  quic_long_header = add64 s.quic_long_header 1;
}
accumulate_decision_stats s quic_short_header_matched = record s {
  quic_short_matched = add64 s.quic_short_matched 1;
}
accumulate_decision_stats s quic_short_header_constricted = record s {
  quic_short_constricted = add64 s.quic_short_constricted 1;
}
accumulate_decision_stats s quic_short_header_unknown_cid_fallback = record s {
  quic_fallback = add64 s.quic_fallback 1;
}
accumulate_decision_stats s quic_short_header_dcid_mismatch_fallback = record s {
  quic_fallback = add64 s.quic_fallback 1;
}
accumulate_decision_stats s quic_malformed_fallback = record s {
  quic_fallback = add64 s.quic_fallback 1;
}
accumulate_decision_stats s _ = s

-- `error` of OfflinePacketFeedResult: a message of the reader, of the writer, or its own.
pub data FeedError : Type 0 where
  no_output_file : FeedError
  reading : ReadError → FeedError
  writing : WriteError → FeedError

pub record OfflinePacketFeedResult : Type 0 where
  pub error : Option FeedError
  pub stats : CaptureStats
