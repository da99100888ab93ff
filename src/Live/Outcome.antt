-- ===== src/Live/Outcome.antt =====
-- What NpcapCapture::Run reports.
use pcap_constrictor_win_pac.Base.{
  ℕ, Bool, ◌+◌, ◌^◌, ◌<◌, ◌≤◌, ◌≡◌, refl, ◌⊎◌, Option, some, List, Bytes, length, arith,
}
use pcap_constrictor_win_pac.Decode.Types.{PcapLinkType}
use pcap_constrictor_win_pac.Feed.Types.{CaptureStats, no_stats}
use pcap_constrictor_win_pac.Live.Books.{offered_bytes, Tally, Counted, capture_loop-Counted}
use pcap_constrictor_win_pac.Live.Cases.{opening, run_cases}
use pcap_constrictor_win_pac.Live.Loop.{Progress, going, left, capture_loop}
use pcap_constrictor_win_pac.Live.Run.{
  conclude, failed, LiveRun, still_going, returned, new_session, new_capture, run_loop, run,
}
use pcap_constrictor_win_pac.Live.Types.{Clocks, Round, Handle, OpenLive}
use pcap_constrictor_win_pac.Pcap.Writer.{OutStream, PcapWriter}
use pcap_constrictor_win_pac.Policy.Config.{CaptureOptions, PolicyConfig}

-- The statistics of a run that has returned.
pub record IsReport (limit : ℕ) (s : CaptureStats) : Type 0 where
  pub all_written : s.packets_written ≡ s.packets_total
  pub saved : s.bytes_saved + s.bytes_output ≡ s.bytes_input
  pub one_reason_each :
      s.tls_appdata_constricted + s.tls_fallback + s.quic_long_header + s.quic_short_matched
        + s.quic_short_constricted + s.quic_fallback
      ≤ s.packets_total
  pub within_limit : (limit ≡ 0) ⊎ (s.packets_total ≤ limit)
  pub one_error : s.receive_errors ≤ 1

-- The same of a run that has not: no error has been counted.
abbrev pub Reports : ℕ → LiveRun → Type 0
Reports limit (still_going c) = Tally limit c.stats 0 0 × (c.stats.receive_errors ≡ 0)
Reports limit (returned ran) = IsReport limit ran.result.stats

-- The part of Run behind the loop.
abbrev pub ended : Handle → PcapLinkType → Bytes → Bytes → Progress → LiveRun
ended h link_type warning printed out = elim out [
  | going c ↦ still_going c
  | left c ↦ returned (record {
    result = conclude h link_type warning c;
    printed = printed;
    output = some c.writer.output;
  })
]

ended-Reports :
    (limit : ℕ) (h : Handle) (link_type : PcapLinkType) (warning printed : Bytes) (out : Progress)
    → Counted limit 0 0 out
    → Reports limit (ended h link_type warning printed out)
unfolding conclude
ended-Reports limit h link_type warning printed (going c) counts = counts
ended-Reports limit h link_type warning printed (left c) (t, z) = record {
  all_written = t.every_packet_written;
  saved = ground (arith, t.output_within_input, t.bytes_left);
  one_reason_each = t.at_most_one_reason;
  within_limit = t.within_limit;
  one_error = z;
}

failed-Reports :
    (limit : ℕ) (warning : Bytes) (link_type : PcapLinkType) (text : Bytes)
    → IsReport limit (failed warning link_type text).stats
unfolding failed
failed-Reports limit warning link_type text = ground arith

start-Tally :
    (limit : ℕ) (rounds : List Round)
    → length rounds < 2 ^ 64
    → offered_bytes rounds < 2 ^ 64
    → Tally limit no_stats (length rounds) (offered_bytes rounds)
start-Tally limit rounds a b = ground arith

run_loop-Reports :
    (clocks : Clocks) (config : CaptureOptions) (policy_config : PolicyConfig) (h : Handle)
    (link_type : PcapLinkType) (warning printed : Bytes) (writer : PcapWriter)
    → length h.rounds < 2 ^ 64
    → offered_bytes h.rounds < 2 ^ 64
    → Reports config.max_packets
        (run_loop clocks config h link_type warning printed (new_capture writer policy_config))
unfolding run_loop new_session new_capture
run_loop-Reports clocks config policy_config h link_type warning printed writer a b =
    let s = new_session clocks config h link_type in
    let start = new_capture writer policy_config in
    ended-Reports config.max_packets h link_type warning printed (capture_loop s start h.rounds)
      (capture_loop-Counted s start h.rounds (start-Tally config.max_packets h.rounds a b) refl)

-- Whatever Npcap answers in fewer than 2^64 rounds with fewer than 2^64 captured bytes, whatever
-- packets it delivers, and whether or not the files open and take the data: in the report of a live
-- capture every counted packet has been written, the bytes saved and the bytes written add up to
-- the bytes seen, no packet counts for two reasons, max_packets is not exceeded unless it is 0, and
-- at most one receive error is counted. A capture that is still going has counted no error, has
-- written at most the bytes it has seen, and is within the limit too.
pub run-Reports :
    (has_npcap : Bool) (clocks : Clocks) (open_live : OpenLive) (config : CaptureOptions)
    (policy_config : PolicyConfig) (path : Bytes) (file : Option OutStream)
    → ((h : Handle)
        → (opening open_live config).0 ≡ some h
        → (length h.rounds < 2 ^ 64) × (offered_bytes h.rounds < 2 ^ 64))
    → Reports config.max_packets (run has_npcap clocks open_live config policy_config path file)
run-Reports has_npcap clocks open_live config policy_config path file small =
    run_cases clocks config policy_config path file (Reports config.max_packets)
      (λ warning link_type text printed output n.
        failed-Reports config.max_packets warning link_type text)
      has_npcap open_live
      (λ h opens stream link_type writer warning printed e maps w.
        run_loop-Reports clocks config policy_config h link_type warning printed writer
          (small h opens).0 (small h opens).1)
