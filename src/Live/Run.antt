-- ===== src/Live/Run.antt =====
-- NpcapCapture::Run around the capture loop, in a build for Windows: capture/NpcapCapture.cpp.
use pcap_constrictor_win_pac.Base.{
  ℕ, ◌+◌, ◌-◌, ◌%◌, ◌^◌, min, Bool, true, not, ◌&&◌, Option, none, some, [], ◌++◌, if◌then◌else◌,
  Bytes, codes, is_empty, pos, is_zero, to_int,
}
use pcap_constrictor_win_pac.Decode.Types.{PcapLinkType, null, ethernet}
use pcap_constrictor_win_pac.Feed.Types.{no_stats}
use pcap_constrictor_win_pac.Live.Loop.{
  stop_requested, unsupported_datalink_error, try_map_datalink, append_warning, what, Session,
  Capture, going, left, capture_loop,
}
use pcap_constrictor_win_pac.Live.Report.{format_startup_summary}
use pcap_constrictor_win_pac.Live.Types.{
  LiveCaptureTerminationReason, stopped, interrupted, NpcapDriverStats, no_driver_stats,
  NpcapCaptureRunResult, no_result, Clocks, Handle, OpenLive,
}
use pcap_constrictor_win_pac.Pcap.Writer.{
  ok, threw, OutStream, PcapWriter, new_writer, write_global_header,
}
use pcap_constrictor_win_pac.Policy.Config.{CaptureOptions, PolicyConfig}
use pcap_constrictor_win_pac.Policy.Decide.{new_policy}

unfoldable pub has_support : Bool → Bool
has_support has_npcap = has_npcap

-- The text of a C string that may be null, empty for null.
abbrev pub text_of : Option Bytes → Bytes
text_of none = []
text_of (some text) = text

-- A warning about a call that may have failed, where it left a text.
unfoldable pub warn : Bytes → Bool → Bytes → Bytes → Bytes
unfolding append_warning
warn warning succeeded label text =
    if not succeeded && not (is_empty text) then append_warning warning (label ++ text) else warning

-- The warning when the capture is open and set up; `open_text` is the error buffer.
unfoldable pub setup_warning : Handle → Bytes → Bytes
unfolding warn
setup_warning h open_text =
    let nonblock =
      warn open_text (is_zero h.nonblock_status) (codes "pcap_setnonblock(1) warning: ")
        h.nonblock_error in
    warn nonblock (is_zero h.mintocopy_status) (codes "pcap_setmintocopy(0) warning: ")
      (text_of h.mintocopy_error)

unfoldable pub output_snaplen : CaptureOptions → ℕ
output_snaplen config = min config.default_snaplen config.max_capture_len

-- What is printed before the output file is opened.
unfoldable pub announcement : CaptureOptions → Bytes → PcapLinkType → Bytes
unfolding format_startup_summary output_snaplen
announcement config output_path link_type =
    format_startup_summary config.interface output_path (output_snaplen config)
      config.read_timeout_ms config.promiscuous link_type config.max_packets config.duration_sec
    ++ ((elim link_type [
      | ethernet ↦ []
      | null ↦
          if config.promiscuous
          then codes "Note: promiscuous mode is not meaningful for loopback DLT_NULL capture.\n"
          else []
    ])
        ++ codes "Press Ctrl+C to stop.\n")

unfoldable pub mark_interrupted :
    Option Bool → LiveCaptureTerminationReason → LiveCaptureTerminationReason
unfolding stop_requested
mark_interrupted flag stopped = if stop_requested flag then interrupted else stopped
mark_interrupted flag reason = reason

unfoldable pub stats_warning : Option Bytes → Bytes
stats_warning none = codes "pcap_stats warning: unavailable"
stats_warning (some text) =
    if is_empty text
    then codes "pcap_stats warning: unavailable"
    else codes "pcap_stats warning: unavailable (" ++ (text ++ codes ")")

unfoldable pub read_driver_stats : Handle → NpcapDriverStats
read_driver_stats h =
    if is_zero h.stats_status
    then record {
      received_by_driver = h.ps_recv % 2 ^ 32;
      dropped_by_driver_or_os = h.ps_drop % 2 ^ 32;
      dropped_by_interface = h.ps_ifdrop % 2 ^ 32;
      available = true;
    }
    else no_driver_stats

-- The result when the loop has been left.
unfoldable pub conclude : Handle → PcapLinkType → Bytes → Capture → NpcapCaptureRunResult
unfolding mark_interrupted read_driver_stats append_warning stats_warning
conclude h link_type warning c = record {
  stats = record c.stats {
    bytes_saved = (c.stats.bytes_input + 2 ^ 64 - c.stats.bytes_output) % 2 ^ 64;
  };
  driver_stats = read_driver_stats h;
  message = c.message;
  warning =
      if is_zero h.stats_status
      then warning
      else append_warning warning (stats_warning h.stats_error);
  termination_reason = mark_interrupted h.stop_flag_behind c.termination_reason;
  link_type = link_type;
  elapsed_ticks = h.end_time - h.start_time;
}

-- A run that ends before the loop.
unfoldable pub failed : Bytes → PcapLinkType → Bytes → NpcapCaptureRunResult
failed warning link_type text = record no_result {
  warning = warning;
  link_type = link_type;
  termination_reason = LiveCaptureTerminationReason.error;
  message = text;
}

-- What Run returns, what it has printed, and the output file where it has opened one.
pub record Ran : Type 0 where
  pub result : NpcapCaptureRunResult
  pub printed : Bytes
  pub output : Option OutStream

-- The loop is still going behind the last round, or Run has returned.
pub data LiveRun : Type 0 where
  still_going : Capture → LiveRun
  returned : Ran → LiveRun

unfoldable pub new_session : Clocks → CaptureOptions → Handle → PcapLinkType → Session
new_session clocks config h link_type = record {
  clocks = clocks;
  config = config;
  link_type = link_type;
  nonblocking = is_zero h.nonblock_status;
  start_time = h.start_time;
}

unfoldable pub new_capture : PcapWriter → PolicyConfig → Capture
unfolding new_policy
new_capture writer policy_config = record {
  writer = writer;
  policy = new_policy policy_config;
  stats = no_stats;
  termination_reason = stopped;
  message = [];
  slept_ms = 0;
}

-- Run, once the global header has been written.
unfoldable pub run_loop :
    Clocks → CaptureOptions → Handle → PcapLinkType → Bytes → Bytes → Capture → LiveRun
run_loop clocks config h link_type warning printed start =
    elim (capture_loop (new_session clocks config h link_type) start h.rounds) [
      | going c ↦ still_going c
      | left c ↦ returned (record {
        result = conclude h link_type warning c;
        printed = printed;
        output = some c.writer.output;
      })
    ]

-- Run, once the capture is open on a supported link type; the output file may not open.
unfoldable pub run_supported :
    Clocks
    → CaptureOptions
    → PolicyConfig
    → Bytes
    → Option OutStream
    → Handle
    → PcapLinkType
    → Bytes
    → LiveRun
run_supported clocks config policy_config output_path file h link_type warning =
    let printed = announcement config output_path link_type in
    elim file [
      | none ↦ returned (record {
        result =
            failed warning link_type
              (codes "failed to open output file '" ++ (output_path ++ codes "'"));
        printed = printed;
        output = none;
      })
      | some stream ↦
          elim (write_global_header (new_writer stream (output_snaplen config) link_type)) [
            | threw e ↦ returned (record {
              result = failed warning link_type (what e);
              printed = printed;
              output = some stream;
            })
            | ok writer ↦
                run_loop clocks config h link_type warning printed
                  (new_capture writer policy_config)
          ]
    ]

-- Run, once the capture is open.
unfoldable pub run_open :
    Clocks → CaptureOptions → PolicyConfig → Bytes → Option OutStream → Handle → Bytes → LiveRun
run_open clocks config policy_config output_path file h open_text =
    let warning = setup_warning h open_text in
    elim (try_map_datalink h.datalink) [
      | none ↦ returned (record {
        result = failed warning ethernet (unsupported_datalink_error h.datalink);
        printed = [];
        output = none;
      })
      | some link_type ↦
          run_supported clocks config policy_config output_path file h link_type warning
    ]

-- Run in a build with Npcap.
unfoldable pub run_npcap :
    Clocks → OpenLive → CaptureOptions → PolicyConfig → Bytes → Option OutStream → LiveRun
run_npcap clocks open_live config policy_config output_path file =
    let (handle, text) =
      open_live config.interface (to_int (output_snaplen config))
        (if config.promiscuous then pos 1 else pos 0) (to_int config.read_timeout_ms) in
    elim handle [
      | none ↦ returned (record {
        result =
            failed [] ethernet
              (if is_empty text then codes "pcap_open_live failed with no error details" else text);
        printed = [];
        output = none;
      })
      | some h ↦ run_open clocks config policy_config output_path file h text
    ]

-- Run in any build.
unfoldable pub run :
    Bool → Clocks → OpenLive → CaptureOptions → PolicyConfig → Bytes → Option OutStream → LiveRun
unfolding has_support
run has_npcap clocks open_live config policy_config output_path file =
    if has_support has_npcap
    then run_npcap clocks open_live config policy_config output_path file
    else returned (record {
      result = failed [] ethernet (codes "Npcap live capture is unavailable in this build");
      printed = [];
      output = none;
    })
