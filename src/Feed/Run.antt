-- ===== src/Feed/Run.antt =====
-- OfflinePacketFeed::Run of offline/OfflinePacketFeed.cpp.
use pcap_constrictor_win_pac.Base.{
  ℕ, zero, suc, ◌+◌, ◌-◌, ◌%◌, ◌^◌, min, Option, none, some, ◌==◌, if◌then◌else◌, length,
}
use pcap_constrictor_win_pac.Decode.Types.{ethernet}
use pcap_constrictor_win_pac.Feed.Types.{
  CaptureStats, no_stats, add64, accumulate_decision_stats, FeedError, no_output_file, reading,
  writing, OfflinePacketFeedResult,
}
use pcap_constrictor_win_pac.Pcap.Reader.{InputFile, PcapReader, open_reader, read_next}
use pcap_constrictor_win_pac.Pcap.Types.{SystemClock, PcapPacketRecord, timestamp, empty_header}
use pcap_constrictor_win_pac.Pcap.Writer.{
  Written, ok, threw, OutStream, PcapWriter, new_writer, write_packet,
}
use pcap_constrictor_win_pac.Policy.Config.{PolicyConfig}
use pcap_constrictor_win_pac.Policy.Decide.{
  LiveCaptureDecision, LiveCapturePolicy, evaluate, new_policy,
}
use pcap_constrictor_win_pac.Policy.Packet.{CapturedPacket, unknown}
use pcap_constrictor_win_pac.Span.{of_list}

-- The objects that the loop of Run works on.
pub record Feed : Type 0 where
  pub reader : PcapReader
  pub writer : PcapWriter
  pub policy : LiveCapturePolicy
  pub stats : CaptureStats

-- The packet that a record becomes.
unfoldable pub to_packet : SystemClock → PcapReader → PcapPacketRecord → CapturedPacket
to_packet clock reader r = record {
  packet = record {
    view_data = of_list r.bytes;
    captured_len = r.captured_length;
    original_len = r.original_length;
  };
  timestamp = timestamp clock reader.global_header.time_precision r;
  ifindex = 0;
  direction = unknown;
  link_type = ethernet;
}

unfoldable pub count : CaptureStats → PcapPacketRecord → LiveCaptureDecision → CaptureStats
unfolding add64 accumulate_decision_stats
count s r decision =
    accumulate_decision_stats
      (record s {
        packets_total = add64 s.packets_total 1;
        packets_written = add64 s.packets_written 1;
        bytes_input = add64 s.bytes_input r.captured_length;
        bytes_output = add64 s.bytes_output decision.output_len;
      })
      decision.reason

-- The body of the loop, with the reader already behind the record.
unfoldable pub feed_record : SystemClock → Feed → PcapPacketRecord → Written Feed
unfolding to_packet count
feed_record clock f r =
    let packet = to_packet clock f.reader r in
    let (policy, decision) = evaluate f.policy packet in
    elim (write_packet clock f.writer packet decision.output_len) [
      | threw e ↦ threw e
      | ok w ↦ ok (record {
        reader = f.reader;
        writer = w;
        policy = policy;
        stats = count f.stats r decision;
      })
    ]

-- How the loop ends: without a further record, with an exception, or, in the model, without fuel.
pub data Ending : Type 0 where
  finished exhausted : Ending
  caught : FeedError → Ending

unfoldable pub feed_loop : SystemClock → ℕ → Feed → Feed × Ending
unfolding feed_record
feed_loop clock zero f = (f, exhausted)
feed_loop clock (suc fuel) f =
    let (reader, found) = read_next f.reader in
    let behind = record f { reader = reader } in
    elim found [
      | none ↦ (behind, finished)
      | some r ↦ elim (feed_record clock behind r) [
        | threw e ↦ (behind, caught (writing e))
        | ok next ↦ feed_loop clock fuel next
      ]
    ]

-- Fuel for one iteration per unread byte, and one more.
abbrev pub fuel_for : PcapReader → ℕ
fuel_for reader = elim reader.stream [ none ↦ 1 | some unread ↦ suc (length unread) ]

-- What Run returns when the loop has ended.
unfoldable pub conclude : Feed × Ending → OfflinePacketFeedResult
conclude (f, caught e) = record { error = some e; stats = f.stats }
conclude (f, exhausted) = record { error = none; stats = f.stats }
conclude (f, finished) = elim f.reader.error [
  | some e ↦ record { error = some (reading e); stats = f.stats }
  | none ↦ record {
    error = none;
    stats = record f.stats {
      bytes_saved = (f.stats.bytes_input + 2 ^ 64 - f.stats.bytes_output) % 2 ^ 64;
    };
  }
]

unfoldable pub output_snaplen : PcapReader → PolicyConfig → ℕ
output_snaplen reader config =
    if reader.global_header.snaplen == 0
    then min config.capture.default_snaplen config.capture.max_capture_len
    else reader.global_header.snaplen

unfoldable pub start : PcapReader → OutStream → PolicyConfig → Feed
unfolding output_snaplen new_writer new_policy
start reader output config = record {
  reader = reader;
  writer = new_writer output (output_snaplen reader config) ethernet;
  policy = new_policy config;
  stats = no_stats;
}

abbrev pub closed_reader : PcapReader
closed_reader = record {
  stream = none;
  global_header = empty_header;
  file_size = 0;
  next_input_offset = 0;
  next_packet_index = 0;
  error = none;
  incomplete_tail_info = none;
}

-- The error of a reader that could not open its file.
abbrev pub open_failed : PcapReader → OfflinePacketFeedResult
open_failed reader = record {
  error = elim reader.error [ none ↦ none | some e ↦ some (reading e) ];
  stats = no_stats;
}

-- Run, once the input is open.
unfoldable pub run_opened :
    SystemClock
    → PcapReader
    → Option OutStream
    → PolicyConfig
    → OfflinePacketFeedResult × Option OutStream
unfolding feed_loop conclude start
run_opened clock reader output config = elim output [
  | none ↦ (record { error = some no_output_file; stats = no_stats }, none)
  | some stream ↦
      let ended = feed_loop clock (fuel_for reader) (start reader stream config) in
      (conclude ended, some ended.0.writer.output)
]

-- Run, on the input file and on the output file where it can be opened; with what the output
-- then holds.
unfoldable pub run :
    SystemClock
    → InputFile
    → Option OutStream
    → PolicyConfig
    → OfflinePacketFeedResult × Option OutStream
unfolding open_reader run_opened
run clock input output config =
    let (reader, opened) = open_reader closed_reader input in
    if opened then run_opened clock reader output config else (open_failed reader, output)
