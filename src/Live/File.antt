-- ===== src/Live/File.antt =====
-- The output file of a live capture that opens.
use pcap_constrictor_win_pac.Base.{
  ℕ, ◌^◌, ◌<◌, ◌≤◌, ◌≡◌, refl, ap, sym, ◌∙◌, true, some, ◌++◌, take, length, Bytes, arith,
}
use mathlib.Core.List.{append_assoc}
use pcap_constrictor_win_pac.Decode.Types.{PcapLinkType}
use pcap_constrictor_win_pac.Live.Books.{state}
use pcap_constrictor_win_pac.Live.Cases.{opening}
use pcap_constrictor_win_pac.Live.Loop.{try_map_datalink, Progress, going, left, capture_loop}
use pcap_constrictor_win_pac.Live.Outcome.{ended}
use pcap_constrictor_win_pac.Live.Output.{packets, cut, Wrote, capture_loop-Wrote}
use pcap_constrictor_win_pac.Live.Run.{
  output_snaplen, setup_warning, announcement, conclude, LiveRun, still_going, returned,
  new_session, new_capture, run_loop, run_supported, run_open, run_npcap, run,
}
use pcap_constrictor_win_pac.Live.Types.{Clocks, Handle, OpenLive}
use pcap_constrictor_win_pac.Pcap.Layout.{header_bytes, appended, write_global_header_lem}
use pcap_constrictor_win_pac.Pcap.Whole.{body}
use pcap_constrictor_win_pac.Pcap.Writer.{
  ok, OutStream, PcapWriter, new_writer, write_global_header,
}
use pcap_constrictor_win_pac.Policy.Config.{CaptureOptions, PolicyConfig}
use pcap_constrictor_win_pac.Policy.Decide.{new_policy}

-- The writer behind the global header.
abbrev headed : OutStream → CaptureOptions → PcapLinkType → PcapWriter
headed stream config link_type =
    let n = output_snaplen config in
    record (appended (new_writer stream n link_type) (header_bytes n link_type)) {
      global_header_written = true;
    }

-- The file with the first `n` packets that Npcap hands over.
abbrev pub live_file :
    Clocks → CaptureOptions → PolicyConfig → OutStream → Handle → PcapLinkType → ℕ → Bytes
live_file clocks config policy_config stream h link_type n =
    stream.content
    ++ (header_bytes (output_snaplen config) link_type
        ++ body clocks.system (
            cut (new_policy policy_config)
              (take n (packets (new_session clocks config h link_type) h.rounds))))

-- The output holds the file with as many packets as are counted, of which so many were handed over.
abbrev pub Leaves : (ℕ → Bytes) → ℕ → LiveRun → Type 0
Leaves file most (still_going c) =
    (c.writer.output.content ≡ file c.stats.packets_total) × (c.stats.packets_total ≤ most)
Leaves file most (returned ran) =
    (out : OutStream) × (ran.output ≡ some out)
    × (out.content ≡ file ran.result.stats.packets_total)
    × (ran.result.stats.packets_total ≤ most)

header_lem :
    (stream : OutStream) (config : CaptureOptions) (link_type : PcapLinkType)
    → ((n : ℕ) → stream.accepts n ≡ true)
    → write_global_header (new_writer stream (output_snaplen config) link_type)
      ≡ ok (headed stream config link_type)
unfolding new_writer
header_lem stream config link_type a =
    write_global_header_lem (new_writer stream (output_snaplen config) link_type) a

-- A run whose capture opens on a supported link type, and whose output file opens and takes the
-- header, is its loop.
run_loops :
    (clocks : Clocks) (open_live : OpenLive) (config : CaptureOptions)
    (policy_config : PolicyConfig) (path : Bytes) (stream : OutStream) (h : Handle)
    (link_type : PcapLinkType)
    → (opening open_live config).0 ≡ some h
    → try_map_datalink h.datalink ≡ some link_type
    → ((n : ℕ) → stream.accepts n ≡ true)
    → (warning : Bytes) × (printed : Bytes) × (run true clocks open_live config policy_config path
          (some stream)
        ≡ run_loop clocks config h link_type warning printed
            (new_capture (headed stream config link_type) policy_config))
unfolding run run_npcap run_open run_supported
run_loops clocks open_live config policy_config path stream h link_type opens maps a = (
  setup_warning h (opening open_live config).1,
  announcement config path link_type,
  rw (opens, run_npcap)
      (rw (maps, run_open) (rw (header_lem stream config link_type a, run_supported) refl)),
)

ended-Leaves :
    (file : ℕ → Bytes) (most : ℕ) (h : Handle) (link_type : PcapLinkType) (warning printed : Bytes)
    (out : Progress)
    → (state out).writer.output.content ≡ file (state out).stats.packets_total
    → (state out).stats.packets_total ≤ most
    → Leaves file most (ended h link_type warning printed out)
unfolding conclude
ended-Leaves file most h link_type warning printed (going c) e le = (e, le)
ended-Leaves file most h link_type warning printed (left c) e le = (c.writer.output, refl, e, le)

-- A capture that opens on DLT_EN10MB or DLT_NULL, with an output file that opens and takes all
-- data, and in which Npcap answers fewer than 2^64 rounds: the output gains the global header, with
-- the smaller of the two configured limits as its snap length, and then as many packets as are
-- counted, the first of those that Npcap hands over, each cut to the length that the policy decides
-- when it is shown them one after another. This holds when the run has returned, for whatever
-- reason, and while it is still going.
pub run-Leaves :
    (clocks : Clocks) (open_live : OpenLive) (config : CaptureOptions)
    (policy_config : PolicyConfig) (path : Bytes) (stream : OutStream) (h : Handle)
    (link_type : PcapLinkType)
    → (opening open_live config).0 ≡ some h
    → try_map_datalink h.datalink ≡ some link_type
    → ((n : ℕ) → stream.accepts n ≡ true)
    → length h.rounds < 2 ^ 64
    → Leaves
        (live_file clocks config policy_config stream h link_type)
        (length (packets (new_session clocks config h link_type) h.rounds))
        (run true clocks open_live config policy_config path (some stream))
unfolding run_loop new_capture new_writer new_session
run-Leaves clocks open_live config policy_config path stream h link_type opens maps a small =
    let (warning, printed, same) =
      run_loops clocks open_live config policy_config path stream h link_type opens maps a in
    let s = new_session clocks config h link_type in
    let start = new_capture (headed stream config link_type) policy_config in
    let w : Wrote s start (packets s h.rounds) (state (capture_loop s start h.rounds)) =
      capture_loop-Wrote s start h.rounds (record { header_there = refl; accepts = a })
        (omega arith) in
    let total : (state (capture_loop s start h.rounds)).stats.packets_total ≡ w.n =
      omega (arith, w.total) in
    rw same (
      ended-Leaves (live_file clocks config policy_config stream h link_type)
        (length (packets s h.rounds)) h link_type warning printed (capture_loop s start h.rounds)
        (w.content
          ∙ append_assoc stream.content _ _
          ∙ ap (live_file clocks config policy_config stream h link_type) (sym total))
        (omega (arith, total, w.there)))
