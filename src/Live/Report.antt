-- ===== src/Live/Report.antt =====
-- capture/LiveCaptureReporting.cpp. The text of a `double` is a parameter.
use pcap_constrictor_win_pac.Base.{
  ℕ, Bool, true, false, ◌==◌, if◌then◌else◌, Bytes, codes, to_string, [], ◌++◌,
}
use pcap_constrictor_win_pac.Decode.Types.{PcapLinkType, null, ethernet}
use pcap_constrictor_win_pac.Feed.Types.{CaptureStats}
use pcap_constrictor_win_pac.Live.Types.{
  LiveCaptureTerminationReason, stopped, max_packets_reached, duration_reached, interrupted,
  capture_loop_ended, NpcapDriverStats,
}

unfoldable pub termination_reason_string : LiveCaptureTerminationReason → Bytes
termination_reason_string stopped = codes "stopped"
termination_reason_string max_packets_reached = codes "max_packets limit reached"
termination_reason_string duration_reached = codes "duration_sec limit reached"
termination_reason_string interrupted = codes "interrupted"
termination_reason_string capture_loop_ended = codes "capture loop ended"
termination_reason_string LiveCaptureTerminationReason.error = codes "error"

unfoldable pub termination_is_success : LiveCaptureTerminationReason → Bool
termination_is_success LiveCaptureTerminationReason.error = false
termination_is_success _ = true

unfoldable pub pcap_link_type_string : PcapLinkType → Bytes
pcap_link_type_string ethernet = codes "DLT_EN10MB"
pcap_link_type_string null = codes "DLT_NULL"

unfoldable pub on_off : Bool → Bytes
on_off promiscuous = if promiscuous then codes "enabled" else codes "disabled"

-- `output << label << value << '\n'`
unfoldable pub report_line : Bytes → Bytes → Bytes
report_line label value = label ++ (value ++ codes "\n")

unfoldable pub report_count : Bytes → ℕ → Bytes
unfolding report_line to_string
report_count label value = report_line label (to_string value)

-- A limit is shown unless it is 0.
unfoldable pub limit_line : Bytes → ℕ → Bytes
unfolding report_count
limit_line label limit = if limit == 0 then [] else report_count label limit

unfoldable pub format_startup_summary : Bytes → Bytes → ℕ → ℕ → Bool → PcapLinkType → ℕ → ℕ → Bytes
unfolding report_line report_count on_off pcap_link_type_string limit_line
format_startup_summary interface_name output_path snaplen read_timeout_ms promiscuous link_type
      max_packets duration_sec =
    codes "Opening Npcap capture:\n"
    ++ (report_line (codes "  interface: ") interface_name
        ++ (report_line (codes "  output: ") output_path
            ++ (report_count (codes "  snaplen: ") snaplen
                ++ (report_count (codes "  read_timeout_ms: ") read_timeout_ms
                    ++ (report_line (codes "  promiscuous: ") (on_off promiscuous)
                        ++ (report_line (codes "  linktype: ") (pcap_link_type_string link_type)
                            ++ (limit_line (codes "  max_packets: ") max_packets
                                ++ limit_line (codes "  duration_sec: ") duration_sec)))))))

unfoldable pub driver_lines : NpcapDriverStats → Bytes
unfolding report_count
driver_lines d =
    if d.available
    then codes "Npcap/libpcap stats:\n"
      ++ (report_count (codes "  ps_recv: ") d.received_by_driver
          ++ (report_count (codes "  ps_drop: ") d.dropped_by_driver_or_os
              ++ report_count (codes "  ps_ifdrop: ") d.dropped_by_interface))
    else codes "Npcap/libpcap stats: unavailable\n"

-- The counters of the summary.
unfoldable pub counter_lines : CaptureStats → Bytes
unfolding report_count
counter_lines stats =
    report_count (codes "packets_seen: ") stats.packets_total
    ++ (report_count (codes "packets_written: ") stats.packets_written
        ++ (report_count (codes "bytes_seen: ") stats.bytes_input
            ++ (report_count (codes "bytes_written: ") stats.bytes_output
                ++ (report_count (codes "bytes_saved: ") stats.bytes_saved
                    ++ (report_count (codes "receive_errors: ") stats.receive_errors
                        ++ (report_count (codes "tls_appdata_constricted: ")
                              stats.tls_appdata_constricted
                            ++ report_count (codes "quic_short_constricted: ")
                                stats.quic_short_constricted))))))

unfoldable pub format_summary :
    LiveCaptureTerminationReason → CaptureStats → NpcapDriverStats → Bytes → Bytes → Bool → Bytes
unfolding termination_reason_string report_line on_off counter_lines driver_lines
format_summary reason stats driver_stats elapsed_seconds output_path promiscuous =
    codes "Capture summary:\n"
    ++ (report_line (codes "termination: ") (termination_reason_string reason)
        ++ (report_line (codes "output: ") output_path
            ++ (report_line (codes "promiscuous: ") (on_off promiscuous)
                ++ (report_line (codes "elapsed_seconds: ") elapsed_seconds
                    ++ (counter_lines stats ++ driver_lines driver_stats)))))
