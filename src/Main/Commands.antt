-- ===== src/Main/Commands.antt =====
-- The commands of main.cpp.
use pcap_constrictor_win_pac.Base.{
  not, ◌&&◌, ◌||◌, Option, none, some, List, [], ◌∷◌, ◌++◌, ◌==◌, Bytes, bytes_beq, codes, is_empty,
  if◌then◌else◌,
}
use pcap_constrictor_win_pac.Feed.Run as Feed
use pcap_constrictor_win_pac.Feed.Types.{CaptureStats}
use pcap_constrictor_win_pac.Live.Report.{
  report_count, report_line, format_summary, termination_is_success,
}
use pcap_constrictor_win_pac.Live.Run.{has_support, still_going, returned, Ran, LiveRun}
use pcap_constrictor_win_pac.Live.Run as Live
use pcap_constrictor_win_pac.Live.Types.{interrupted, is_ok}
use pcap_constrictor_win_pac.Loader.Load.{load_from_file}
use pcap_constrictor_win_pac.Loader.Text.{last_or}
use pcap_constrictor_win_pac.Main.World.{
  World, Piece, text, config_message, feed_message, Exited, Outcome, capturing, exited,
}
use pcap_constrictor_win_pac.Npcap.Interfaces.{list_interfaces, NpcapInterfaceListResult}
use pcap_constrictor_win_pac.Npcap.Listing.{format_interface_list}
use pcap_constrictor_win_pac.Npcap.Runtime.{NpcapRuntimeCheck, check_runtime_available}
use pcap_constrictor_win_pac.Policy.Config.{PolicyConfig}

unfoldable pub usage : Bytes
usage =
    codes "Usage:\n  PcapConstrictorWinPacket --list-interfaces\n"
    ++ (codes "  PcapConstrictorWinPacket --config <config.ini>\n"
        ++ (codes "  PcapConstrictorWinPacket --config <config.ini> --offline-input <input.pcap>\n"
            ++ codes "  PcapConstrictorWinPacket --help\n"))

unfoldable pub print_offline_stats : CaptureStats → Bytes
unfolding report_count
print_offline_stats s =
    report_count (codes "packets_total: ") s.packets_total
    ++ (report_count (codes "packets_written: ") s.packets_written
        ++ (report_count (codes "bytes_input: ") s.bytes_input
            ++ (report_count (codes "bytes_output: ") s.bytes_output
                ++ (report_count (codes "bytes_saved: ") s.bytes_saved
                    ++ (report_count (codes "receive_errors: ") s.receive_errors
                        ++ (report_count (codes "tls_appdata_constricted: ")
                              s.tls_appdata_constricted
                            ++ (report_count (codes "tls_fallback: ") s.tls_fallback
                                ++ (report_count (codes "quic_long_header: ") s.quic_long_header
                                    ++ (report_count (codes "quic_short_matched: ")
                                          s.quic_short_matched
                                        ++ (report_count (codes "quic_short_constricted: ")
                                              s.quic_short_constricted
                                            ++ report_count (codes "quic_fallback: ")
                                                s.quic_fallback))))))))))

-- A run that ends with an error before any file is touched.
unfoldable pub refuse : List Piece → Exited
refuse err = record { code = 1; out = []; err = err; output = none }

unfoldable pub run_offline_pipeline : World → Bytes → PolicyConfig → Exited
unfolding report_line print_offline_stats
run_offline_pipeline w input_path config =
    let output_path = config.capture.output in
    let (result, written) =
      Feed.run w.clocks.system (w.input_file input_path) (w.output_file output_path) config in
    elim result.error [
      | some e ↦ record {
        code = 1;
        out = [];
        err = text (codes "Offline feed error: ") ∷ feed_message e ∷ text (codes "\n") ∷ [];
        output = written;
      }
      | none ↦ record {
        code = 0;
        out =
            text (
              codes "Offline feed completed.\n"
              ++ (report_line (codes "input: ") input_path
                  ++ report_line (codes "output: ") output_path))
            ∷ (if config.stats.enabled then text (print_offline_stats result.stats) ∷ [] else []);
        err = [];
        output = written;
      }
    ]

unfoldable pub unavailable_message : Bytes
unavailable_message =
    codes "Npcap live capture is unavailable in this build.\n"
    ++ codes "Reconfigure with NPCAP_SDK_DIR to enable live capture and --list-interfaces.\n"

-- The message, and a line feed unless it ends with one.
unfoldable pub missing_runtime : NpcapRuntimeCheck → Exited
unfolding refuse
missing_runtime check =
    let feed : Bytes =
      if is_empty check.message || not (last_or 0 check.message == b'\n') then codes "\n" else [] in
    refuse (text (check.message ++ feed) ∷ [])

unfoldable pub listing_error : Bytes → Exited
unfolding refuse
listing_error error =
    refuse (text (codes "Npcap interface listing error: " ++ (error ++ codes "\n")) ∷ [])

unfoldable pub print_interfaces : NpcapInterfaceListResult → Exited
unfolding listing_error
print_interfaces result =
    if not (is_empty result.error)
    then listing_error result.error
    else if is_empty result.interfaces
    then record {
      code = 0;
      out = text (codes "Npcap reported no capture interfaces.\n") ∷ [];
      err = [];
      output = none;
    }
    else record {
      code = 0;
      out = text (format_interface_list result.interfaces ++ codes "\n") ∷ [];
      err = [];
      output = none;
    }

unfoldable pub run_list_interfaces : World → Exited
unfolding print_interfaces
run_list_interfaces w =
    let result = list_interfaces w.has_npcap w.getnameinfo w.find_all_devs in
    let (check, held) = check_runtime_available w.load_library [] in
    if not w.has_npcap
    then listing_error result.error
    else if not check.available
    then missing_runtime check
    else print_interfaces result

unfoldable pub report_warning : Bytes → List Piece
report_warning warning =
    if is_empty warning then [] else text (codes "Npcap warning: " ++ (warning ++ codes "\n")) ∷ []

-- What RunLiveCapture prints and returns when the capture has.
unfoldable pub report_live : World → PolicyConfig → Ran → Exited
report_live w config ran =
    let r = ran.result in
    let note : List Piece = elim r.termination_reason [
      | interrupted ↦ text (codes "Capture interrupted, finalizing output...\n") ∷ []
      | _ ↦ []
    ] in
    let summary =
      format_summary r.termination_reason r.stats r.driver_stats (w.elapsed_text r.elapsed_ticks)
        config.capture.output config.capture.promiscuous in
    let out = text (codes "Preparing live capture.\n" ++ ran.printed) ∷ note in
    if not (is_ok r)
    then record {
      code = 1;
      out = out;
      err =
          report_warning r.warning
          ++ (text (codes "Live capture error: " ++ (r.message ++ codes "\n")) ∷ text summary ∷ []);
      output = ran.output;
    }
    else record {
      code = if termination_is_success r.termination_reason then 0 else 1;
      out = out ++ (text summary ∷ []);
      err = report_warning r.warning;
      output = ran.output;
    }

unfoldable pub finish_live : World → PolicyConfig → LiveRun → Outcome
finish_live w config (still_going c) = capturing c
finish_live w config (returned ran) = exited (report_live w config ran)

unfoldable pub interface_required : Bytes
interface_required =
    codes "Configuration error: capture.interface is required for live capture.\n"
    ++ codes "Run PcapConstrictorWinPacket --list-interfaces and copy a name into config.ini.\n"

unfoldable pub run_live_capture : World → PolicyConfig → Outcome
unfolding has_support
run_live_capture w config =
    let (check, held) = check_runtime_available w.load_library [] in
    if not (has_support w.has_npcap)
    then exited (refuse (text unavailable_message ∷ []))
    else if not check.available
    then exited (missing_runtime check)
    else if is_empty config.capture.interface
    then exited (refuse (text interface_required ∷ []))
    else finish_live w config (
        Live.run w.has_npcap w.clocks w.open_live config.capture config config.capture.output
          (w.output_file config.capture.output))

unfoldable pub usage_error : Exited
unfolding refuse usage
usage_error = refuse (text usage ∷ [])

-- Behind `--config`, with the input file in the offline mode.
unfoldable pub run_config : World → Bytes → Option Bytes → Outcome
run_config w path input =
    let result = load_from_file (w.config_file path) in
    elim result.error [
      | some e ↦ exited (
          refuse (text (codes "Configuration error: ") ∷ config_message e ∷ text (codes "\n") ∷ []))
      | none ↦ elim input [
        | some input_path ↦ exited (run_offline_pipeline w input_path result.config)
        | none ↦ run_live_capture w result.config
      ]
    ]

-- The arguments behind the name of the program.
unfoldable pub main : World → List Bytes → Outcome
main w (option ∷ []) =
    if bytes_beq option (codes "--help")
    then exited (record { code = 0; out = text usage ∷ []; err = []; output = none })
    else if bytes_beq option (codes "--list-interfaces")
    then exited (run_list_interfaces w)
    else exited usage_error
main w (option ∷ path ∷ []) =
    if bytes_beq option (codes "--config") then run_config w path none else exited usage_error
main w (option ∷ path ∷ second ∷ input ∷ []) =
    if bytes_beq option (codes "--config") && bytes_beq second (codes "--offline-input")
    then run_config w path (some input)
    else exited usage_error
main w _ = exited usage_error
