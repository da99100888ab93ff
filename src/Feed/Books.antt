-- ===== src/Feed/Books.antt =====
-- What OfflinePacketFeed::Run reports of a whole run.
use pcap_constrictor_win_pac.Base.{
  ℕ, suc, ◌+◌, ◌*◌, ◌^◌, ◌<◌, ◌≤◌, ◌≡◌, ◌≢◌, refl, subst, ◌⊎◌, false, Option, none, some, Bytes,
  length, arith, [], ◌++◌, inl, inr, Option-cases,
}
use pcap_constrictor_win_pac.Feed.Account.{Standing, Closed, feed_loop-Closed}
use pcap_constrictor_win_pac.Feed.Run.{
  Feed, finished, exhausted, caught, Ending, feed_loop, conclude, start, run_opened, run, fuel_for,
  closed_reader,
}
use pcap_constrictor_win_pac.Feed.Types.{
  no_stats, OfflinePacketFeedResult, reading, writing, FeedError,
}
use pcap_constrictor_win_pac.Pcap.Opening.{IsOpen, Opening-cases, open_reader-Opening}
use pcap_constrictor_win_pac.Decode.Types.{ethernet}
use pcap_constrictor_win_pac.Pcap.Layout.{header_bytes}
use pcap_constrictor_win_pac.Pcap.RoundTrip.{open_reader-header_bytes}
use pcap_constrictor_win_pac.Pcap.Reader.{
  PcapReader, open_reader, read_next, read_open, open_content, read_exact,
}
use pcap_constrictor_win_pac.Pcap.Types.{SystemClock}
use pcap_constrictor_win_pac.Pcap.Writer.{OutStream, incl_len_exceeds}
use pcap_constrictor_win_pac.Policy.Config.{PolicyConfig}

-- The statistics of a run over a file of `size` bytes.
pub record IsReport (size : ℕ) (r : OfflinePacketFeedResult) : Type 0 where
  pub all_written : r.stats.packets_written ≡ r.stats.packets_total
  pub output_within_input : r.stats.bytes_output ≤ r.stats.bytes_input
  pub one_reason_each :
      r.stats.tls_appdata_constricted + r.stats.tls_fallback + r.stats.quic_long_header
        + r.stats.quic_short_matched + r.stats.quic_short_constricted + r.stats.quic_fallback
      ≤ r.stats.packets_total
  pub within_file : 16 * r.stats.packets_total + r.stats.bytes_input ≤ size
  pub ended :
      ((e : FeedError) × (r.error ≡ some e) × (e ≢ writing incl_len_exceeds))
      ⊎ ((r.error ≡ none)
          × (r.stats.bytes_saved + r.stats.bytes_output ≡ r.stats.bytes_input)
          × (24 + (16 * r.stats.packets_total + r.stats.bytes_input) ≡ size))

conclude-IsReport :
    (size : ℕ) (r : Feed × Ending) → size < 2 ^ 64 → Closed size r → IsReport size (conclude r)
unfolding conclude
conclude-IsReport size (f, finished) small c = elim (Option-cases f.reader.error) [
  | inl e ↦ rw e (record {
    all_written = c.balanced.every_packet_written;
    output_within_input = c.balanced.output_within_input;
    one_reason_each = c.balanced.at_most_one_reason;
    within_file = ground (arith, c.balanced.input_accounted, c.within);
    ended = inr (
      refl,
      ground (arith, c.balanced.input_accounted, c.within, c.balanced.output_within_input),
      ground (arith, c.balanced.input_accounted, c.complete refl e),
    );
  })
  | inr (why, e) ↦ rw e (record {
    all_written = c.balanced.every_packet_written;
    output_within_input = c.balanced.output_within_input;
    one_reason_each = c.balanced.at_most_one_reason;
    within_file = ground (arith, c.balanced.input_accounted, c.within);
    ended = inl (reading why, refl, ground arith);
  })
]
conclude-IsReport size (f, exhausted) small c = ground (arith, c.ends)
conclude-IsReport size (f, caught e) small c = record {
  all_written = c.balanced.every_packet_written;
  output_within_input = c.balanced.output_within_input;
  one_reason_each = c.balanced.at_most_one_reason;
  within_file = ground (arith, c.balanced.input_accounted, c.within);
  ended = inl (e, refl, ground (arith, c.ends));
}

no_stats-IsReport :
    (size : ℕ) (e : FeedError)
    → e ≢ writing incl_len_exceeds
    → IsReport size (record { error = some e; stats = no_stats })
no_stats-IsReport size e other = record {
  all_written = refl;
  output_within_input = ground arith;
  one_reason_each = ground arith;
  within_file = ground arith;
  ended = inl (e, refl, other);
}

start-Standing :
    (content : Bytes) (reader : PcapReader) (output : OutStream) (config : PolicyConfig)
    → (o : IsOpen content reader) → Standing (start reader output config) o.unread
unfolding start
start-Standing content reader output config o = record {
  no_error = o.no_error;
  rest = o.rest;
  to_the_end = o.to_the_end;
  addressable = ground (arith, o.sized, o.addressable);
  balanced = record {
    every_packet_written = refl;
    every_packet_counted = ground (arith, o.at_first);
    output_within_input = ground arith;
    input_accounted = ground (arith, o.behind_header);
    at_most_one_reason = ground arith;
  };
}

run_opened-IsReport :
    (clock : SystemClock) (reader : PcapReader) (output : Option OutStream) (config : PolicyConfig)
    (content : Bytes)
    → IsOpen content reader
    → IsReport (length content) (run_opened clock reader output config).0
unfolding run_opened
run_opened-IsReport clock reader none config content o =
    no_stats-IsReport (length content) _ (ground arith)
run_opened-IsReport clock reader (some stream) config content o =
    let fuel : fuel_for reader ≡ suc (length o.unread) = ground (arith, o.rest) in
    let s = start-Standing content reader stream config o in
    let ended = feed_loop clock (suc (length o.unread)) (start reader stream config) in
    let closed : Closed reader.file_size ended =
      feed_loop-Closed clock (suc (length o.unread)) (start reader stream config) o.unread s
        (ground arith) in
    rw fuel (
      conclude-IsReport (length content) ended o.addressable
        (subst (λ n. Closed n ended) o.sized closed))

-- Whatever an input file holds whose reported size is its length, below 2^64 bytes: the report of a
-- run adds up. Every packet counted has been written, with at most as many bytes in all as were
-- read, and at most one reason each; the packets and their headers lie within the file. The run
-- reports an error, never that the length to write exceeds the packet, or has consumed the whole
-- file, and then the bytes saved and written are together the bytes read.
pub run-IsReport :
    (clock : SystemClock) (content : Bytes) (output : Option OutStream) (config : PolicyConfig)
    → length content < 2 ^ 64
    → IsReport
        (length content)
        (run clock
          (record { reported_size = some (length content); content = some content })
          output
          config).0
unfolding run
run-IsReport clock content output config small =
    elim (Opening-cases (open_reader-Opening closed_reader content)) [
      | inl (r, e, o) ↦ rw e (run_opened-IsReport clock r output config content o)
      | inr (why, r, e, f) ↦ rw (e, f) (no_stats-IsReport _ (reading why) (ground arith))
    ]

-- A capture file that is PcapWriter's global header alone, with a snap length that is not 0 and
-- fits 32 bits, is constricted without an error and nothing is written to the output: not even the
-- global header. PcapReader refuses a file without content.
pub run_no_packets :
    (clock : SystemClock) (snaplen : ℕ) (stream : OutStream) (config : PolicyConfig)
    → 0 < snaplen
    → snaplen < 2 ^ 32
    → (run clock
          (record { reported_size = some 24; content = some (header_bytes snaplen ethernet ++ []) })
          (some stream)
          config
        ≡ (record { error = none; stats = no_stats }, some stream))
      × ((open_reader closed_reader (record { reported_size = some 0; content = some [] })).1
          ≡ false)
unfolding run run_opened start feed_loop read_next read_open conclude open_reader open_content
    read_exact
run_no_packets clock snaplen stream config pos fits =
    (rw (open_reader-header_bytes closed_reader snaplen 24 [] pos fits (omega arith)) refl, refl)
