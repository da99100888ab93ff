-- ===== src/Tests/Live.antt =====
-- A live capture of one packet, stopped by Ctrl+C.
use pcap_constrictor_win_pac.Base.{
  ℕ, ◌^◌, ◌<◌, ◌≡◌, refl, ap, subst, true, false, Option, none, some, List, [], ◌∷◌, take, length,
  Bytes, codes, get_or, pos, negsuc, arith,
}
use pcap_constrictor_win_pac.Decode.Types.{ethernet}
use pcap_constrictor_win_pac.Live.Books.{offered_bytes}
use pcap_constrictor_win_pac.Live.Cases.{opening}
use pcap_constrictor_win_pac.Live.Ending.{KeepsFlag, Ends, run-Ends}
use pcap_constrictor_win_pac.Live.File.{Leaves, live_file, run-Leaves}
use pcap_constrictor_win_pac.Live.Liveness.{stop_is_due, capture_loop_ends}
use pcap_constrictor_win_pac.Live.Loop.{
  Session, Capture, left, capture_loop, stop_requested, duration_limit_reached, try_map_datalink,
}
use pcap_constrictor_win_pac.Live.Outcome.{Reports, run-Reports}
use pcap_constrictor_win_pac.Live.Output.{packets, cut}
use pcap_constrictor_win_pac.Live.Reread.{HeadersFit, IsReread, run-IsReread}
use pcap_constrictor_win_pac.Live.Run.{
  output_snaplen, new_session, new_capture, run_loop, run_supported, run_open, run_npcap, run, Ran,
  returned, still_going,
}
use pcap_constrictor_win_pac.Live.Types.{
  Clocks, PcapPktHdr, NextAnswer, Round, Handle, OpenLive, no_result,
}
use pcap_constrictor_win_pac.Pcap.Writer.{
  OutStream, write_global_header, new_writer, write_packet, le16, le32,
}
use pcap_constrictor_win_pac.Policy.Config.{CaptureOptions}
use pcap_constrictor_win_pac.Policy.Decide.{
  new_policy, evaluate, constrict, is_malformed, baseline_len,
}
use pcap_constrictor_win_pac.Decode.Link.{decode_packet}
use pcap_constrictor_win_pac.Span.{has_bytes, copy_bytes}
use pcap_constrictor_win_pac.Policy.Packet.{safe_captured_len, safe_span}
use pcap_constrictor_win_pac.Tests.Samples.{msvc_clock, small_config, all_accepted, fresh_writer}

abbrev pub clocks : Clocks
clocks = record { system = msvc_clock; steady_per_second = 1000000000 }

abbrev pub silence : NextAnswer
silence = record { status = pos 0; header = none; bytes = none; handle_error = none }

-- A frame that is too short for its headers.
abbrev runt : Bytes
runt = 1 ∷ 2 ∷ 3 ∷ 4 ∷ []

abbrev packet_header : PcapPktHdr
packet_header = record { tv_sec = 2; tv_usec = 500000; caplen = 4; len = 4 }

abbrev one_packet : NextAnswer
one_packet = record {
  status = pos 1;
  header = some packet_header;
  bytes = some (λ i. get_or runt i 0);
  handle_error = none;
}

abbrev quiet_round : Round
quiet_round = record { stop_flag = some false; now = 100; answer = silence }

abbrev packet_round : Round
packet_round = record { stop_flag = some false; now = 200; answer = one_packet }

abbrev stop_round : Round
stop_round = record { stop_flag = some true; now = 300; answer = silence }

abbrev pub handle : Handle
handle = record {
  nonblock_status = pos 0;
  nonblock_error = [];
  mintocopy_status = pos 0;
  mintocopy_error = none;
  datalink = pos 1;
  start_time = 0;
  rounds = quiet_round ∷ packet_round ∷ stop_round ∷ [];
  stop_flag_behind = some true;
  stats_status = negsuc 0;
  ps_recv = 0;
  ps_drop = 0;
  ps_ifdrop = 0;
  stats_error = none;
  end_time = 400;
}

abbrev pub open_live : OpenLive
open_live name snaplen promiscuous timeout = (some handle, [])

abbrev options : CaptureOptions
options = small_config.capture

abbrev path : Bytes
path = codes "a.pcap"

small_rounds :
    (h : Handle)
    → (opening open_live options).0 ≡ some h
    → (length h.rounds < 2 ^ 64) × (offered_bytes h.rounds < 2 ^ 64)
small_rounds h e =
    let same : handle ≡ h = cc in
    subst (λ g. (length g.rounds < 2 ^ 64) × (offered_bytes g.rounds < 2 ^ 64)) same (omega arith)

run-Reports_example :
    Reports 0 (run true clocks open_live options small_config path (some all_accepted))
run-Reports_example =
    run-Reports true clocks open_live options small_config path (some all_accepted) small_rounds

pub keeps :
    (h : Handle) → (opening open_live options).0 ≡ some h → KeepsFlag h.stop_flag_behind h.rounds
unfolding stop_requested
keeps h e =
    let same : handle ≡ h = cc in
    subst (λ g. KeepsFlag g.stop_flag_behind g.rounds) same (ground arith)

run-Ends_example :
    Ends clocks open_live options
      (run true clocks open_live options small_config path (some all_accepted))
run-Ends_example =
    run-Ends true clocks open_live options small_config path (some all_accepted) keeps

abbrev session : Session
session = new_session clocks options handle ethernet

abbrev fresh_capture : Capture
fresh_capture = new_capture fresh_writer small_config

capture_loop_ends_example :
    (end : Capture) × ((after : List Round)
      → capture_loop session fresh_capture (quiet_round ∷ packet_round ∷ stop_round ∷ after)
        ≡ left end)
unfolding new_capture
capture_loop_ends_example =
    capture_loop_ends session fresh_capture (quiet_round ∷ packet_round ∷ []) stop_round
      (omega arith) (stop_is_due refl)

run-Leaves_example :
    Leaves
      (live_file clocks options small_config all_accepted handle ethernet)
      1
      (run true clocks open_live options small_config path (some all_accepted))
unfolding new_session try_map_datalink
run-Leaves_example =
    run-Leaves clocks open_live options small_config path all_accepted handle ethernet refl refl
      (λ n. refl) (omega arith)

abbrev ran : Ran
ran = elim (run true clocks open_live options small_config path (some all_accepted)) [
  | returned r ↦ r
  | still_going c ↦ record { result = no_result; printed = []; output = none }
]

has_returned :
    run true clocks open_live options small_config path (some all_accepted) ≡ returned ran
unfolding run run_npcap run_open run_supported run_loop try_map_datalink write_global_header
    new_writer capture_loop new_session write_packet safe_captured_len evaluate constrict
    is_malformed decode_packet has_bytes safe_span baseline_len new_capture
has_returned = refl

abbrev size_of : Option OutStream → ℕ
size_of none = 0
size_of (some out) = length out.content

file_small : (out : OutStream) → ran.output ≡ some out → length out.content < 2 ^ 64
unfolding run run_npcap run_open run_supported run_loop try_map_datalink write_global_header
    new_writer capture_loop new_session write_packet safe_captured_len evaluate constrict
    is_malformed decode_packet has_bytes safe_span baseline_len new_capture copy_bytes le16 le32
file_small out e = let size : 44 ≡ length out.content = ap size_of e in omega (arith, size)

headers_fit : HeadersFit handle.rounds
headers_fit = (λ h e. ground arith, (λ h e. ground arith, (λ h e. ground arith, tt)))

run-IsReread_example :
    let ps = packets session handle.rounds in
    let es = cut (new_policy small_config) (take ran.result.stats.packets_total ps) in
    (out : OutStream) × (ran.output ≡ some out)
    × IsReread clocks es out
    × (length es ≡ ran.result.stats.packets_total)
unfolding try_map_datalink output_snaplen
run-IsReread_example =
    run-IsReread clocks open_live options small_config path all_accepted handle ran refl refl refl
      (λ n. refl) (omega arith) headers_fit (omega arith) (omega arith) has_returned file_small

-- A duration of 292 years and more wraps to a moment in the past.
duration_wraps : duration_limit_reached clocks 0 0 9223372037 ≡ true
unfolding duration_limit_reached
duration_wraps = refl

duration_far : duration_limit_reached clocks 0 0 9223372036 ≡ false
unfolding duration_limit_reached
duration_far = refl
