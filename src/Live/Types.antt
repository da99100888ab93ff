-- ===== src/Live/Types.antt =====
-- The types of capture/LiveCaptureReporting.hpp, capture/NpcapDriverStats.hpp and
-- capture/NpcapCapture.hpp, and what Npcap, the clocks and the stop flag say during one run. The
-- library is third-party code: its answers are data that the model takes as they come.
use pcap_constrictor_win_pac.Base.{ℕ, Bool, false, Option, List, [], Bytes, is_empty, ℤ}
use pcap_constrictor_win_pac.Decode.Types.{PcapLinkType, ethernet}
use pcap_constrictor_win_pac.Feed.Types.{CaptureStats, no_stats}
use pcap_constrictor_win_pac.Pcap.Types.{SystemClock}

pub data LiveCaptureTerminationReason : Type 0 where
  stopped max_packets_reached duration_reached : LiveCaptureTerminationReason
  interrupted capture_loop_ended error : LiveCaptureTerminationReason

pub record NpcapDriverStats : Type 0 where
  pub received_by_driver : ℕ
  pub dropped_by_driver_or_os : ℕ
  pub dropped_by_interface : ℕ
  pub available : Bool

abbrev pub no_driver_stats : NpcapDriverStats
no_driver_stats = record {
  received_by_driver = 0;
  dropped_by_driver_or_os = 0;
  dropped_by_interface = 0;
  available = false;
}

-- `elapsed_ticks` is the duration before its conversion to seconds as a `double`.
pub record NpcapCaptureRunResult : Type 0 where
  pub stats : CaptureStats
  pub driver_stats : NpcapDriverStats
  pub message : Bytes
  pub warning : Bytes
  pub termination_reason : LiveCaptureTerminationReason
  pub link_type : PcapLinkType
  pub elapsed_ticks : ℕ

abbrev pub no_result : NpcapCaptureRunResult
no_result = record {
  stats = no_stats;
  driver_stats = no_driver_stats;
  message = [];
  warning = [];
  termination_reason = stopped;
  link_type = ethernet;
  elapsed_ticks = 0;
}

-- `ok()`
unfoldable pub is_ok : NpcapCaptureRunResult → Bool
is_ok r = is_empty r.message

-- The clocks: std::chrono::system_clock, and the ticks of std::chrono::steady_clock in a second.
pub record Clocks : Type 0 where
  pub system : SystemClock
  pub steady_per_second : ℕ

-- `struct pcap_pkthdr`, with a time from 1970 on.
pub record PcapPktHdr : Type 0 where
  pub tv_sec : ℕ
  pub tv_usec : ℕ
  pub caplen : ℕ
  pub len : ℕ

-- A call of pcap_next_ex: what it returns, the two pointers that it sets, and the text of
-- pcap_geterr behind it.
pub record NextAnswer : Type 0 where
  pub status : ℤ
  pub header : Option PcapPktHdr
  pub bytes : Option (ℕ → ℕ)
  pub handle_error : Option Bytes

-- What one iteration of the capture loop sees: the stop flag, where there is one, the time, and
-- the answer of Npcap.
pub record Round : Type 0 where
  pub stop_flag : Option Bool
  pub now : ℕ
  pub answer : NextAnswer

-- What an open capture says from pcap_open_live to pcap_close.
pub record Handle : Type 0 where
  pub nonblock_status : ℤ
  pub nonblock_error : Bytes
  pub mintocopy_status : ℤ
  pub mintocopy_error : Option Bytes
  pub datalink : ℤ
  pub start_time : ℕ
  pub rounds : List Round
  pub stop_flag_behind : Option Bool
  pub stats_status : ℤ
  pub ps_recv : ℕ
  pub ps_drop : ℕ
  pub ps_ifdrop : ℕ
  pub stats_error : Option Bytes
  pub end_time : ℕ

-- pcap_open_live on the name of an interface, a snap length, the promiscuous mode and a read
-- timeout: a handle if there is one, and the text in the error buffer.
abbrev pub OpenLive : Type 0
OpenLive = Bytes → ℤ → ℤ → ℤ → Option Handle × Bytes
