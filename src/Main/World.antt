-- ===== src/Main/World.antt =====
-- What main.cpp finds outside the program, and what a run of it leaves.
use pcap_constrictor_win_pac.Base.{ℕ, Bool, Option, List, Bytes}
use pcap_constrictor_win_pac.Feed.Types.{FeedError}
use pcap_constrictor_win_pac.Live.Loop.{Capture}
use pcap_constrictor_win_pac.Live.Types.{Clocks, OpenLive}
use pcap_constrictor_win_pac.Loader.Load.{ConfigError}
use pcap_constrictor_win_pac.Npcap.Interfaces.{GetNameInfo, FindAllDevs}
use pcap_constrictor_win_pac.Npcap.Runtime.{LoadLibrary}
use pcap_constrictor_win_pac.Pcap.Reader.{InputFile}
use pcap_constrictor_win_pac.Pcap.Writer.{OutStream}

-- The build, the clocks, Windows, Npcap and the file system. `elapsed_text` is how the duration in
-- ticks of the steady clock shows as a `double` in seconds.
pub record World : Type 0 where
  pub has_npcap : Bool
  pub clocks : Clocks
  pub elapsed_text : ℕ → Bytes
  pub load_library : LoadLibrary
  pub getnameinfo : GetNameInfo
  pub find_all_devs : FindAllDevs
  pub open_live : OpenLive
  pub config_file : Bytes → Option (Option Bytes)
  pub input_file : Bytes → InputFile
  pub output_file : Bytes → Option OutStream

-- What is printed: texts, and the error messages that are values.
pub data Piece : Type 0 where
  text : Bytes → Piece
  config_message : ConfigError → Piece
  feed_message : FeedError → Piece

-- The exit code, standard output and standard error, and the capture file where one was opened.
pub record Exited : Type 0 where
  pub code : ℕ
  pub out : List Piece
  pub err : List Piece
  pub output : Option OutStream

-- The program is still capturing behind the last round of Npcap, or has exited.
pub data Outcome : Type 0 where
  capturing : Capture → Outcome
  exited : Exited → Outcome
