-- ===== src/Tests/Command.antt =====
-- The command line, the console events and the list of interfaces.
use pcap_constrictor_win_pac.Base.{
  ◌≡◌, ◌&&◌, refl, true, false, none, some, [], ◌∷◌, ◌++◌, codes, is_empty, to_string, length, pos,
  ◌==◌, if◌then◌else◌, bytes_beq,
}
use pcap_constrictor_win_pac.Feed.Output.{decided, file_bytes}
use pcap_constrictor_win_pac.Feed.Run.{fuel_for, output_snaplen}
use pcap_constrictor_win_pac.Loader.Load.{load_from_file}
use pcap_constrictor_win_pac.Loader.Assign.{assign_value, assign_tls}
use pcap_constrictor_win_pac.Loader.Text.{
  lines_of, strip_inline_comment, is_space, split_equals, to_lower, lower, is_digit,
}
use pcap_constrictor_win_pac.Loader.Values.{parse_uint32}
use pcap_constrictor_win_pac.Main.Commands.{main}
use pcap_constrictor_win_pac.Main.Exit.{Exits, KeepsFlags, main-Exits}
use pcap_constrictor_win_pac.Main.Offline.{main_offline}
use pcap_constrictor_win_pac.Main.World.{World, Exited, exited}
use pcap_constrictor_win_pac.Npcap.Interfaces.{NpcapInterfaceInfo}
use pcap_constrictor_win_pac.Npcap.Described.{
  blocks, intercalate, format_interface_list-intercalate,
}
use pcap_constrictor_win_pac.Npcap.Listing.{format_interface_list}
use pcap_constrictor_win_pac.Npcap.Runtime.{
  LoadLibrary, check_runtime_available, check_runtime_available_lem,
}
use pcap_constrictor_win_pac.Pcap.Writer.{OutStream}
use pcap_constrictor_win_pac.Policy.Decide.{new_policy}
use pcap_constrictor_win_pac.Tests.Files.{file, file_reader, file_opens}
use pcap_constrictor_win_pac.Tests.Live.{clocks, open_live, keeps}
use pcap_constrictor_win_pac.Tests.Samples.{all_accepted}

-- Only wpcap.dll loads.
abbrev half_installed : LoadLibrary
half_installed = λ name. if length name == 9 then none else some 126

check_runtime_available_lem_example :
    let (check, after) = check_runtime_available half_installed [] in
    (check.available ≡ (true && false)) × (is_empty check.message ≡ check.available) × (after ≡ [])
check_runtime_available_lem_example = check_runtime_available_lem half_installed []

abbrev loopback : NpcapInterfaceInfo
loopback = record {
  name = codes "lo";
  description = [];
  addresses = codes "127.0.0.1" ∷ codes "::1" ∷ [];
  is_loopback = true;
  is_up = true;
  is_running = false;
  is_wireless = false;
}

format_interface_list-intercalate_example :
    format_interface_list (loopback ∷ loopback ∷ [])
    ≡ intercalate (codes "\n") (blocks 0 (loopback ∷ loopback ∷ []))
format_interface_list-intercalate_example =
    format_interface_list-intercalate (loopback ∷ loopback ∷ [])

abbrev world : World
world = record {
  has_npcap = true;
  clocks = clocks;
  elapsed_text = to_string;
  load_library = λ name. none;
  getnameinfo = λ address size. none;
  find_all_devs = record { status = pos 0; error_buffer = []; devices = [] };
  open_live = open_live;
  config_file = λ path. some (some (codes "[tls]\napp_data_keep_record_bytes = 6\n"));
  input_file = λ path. record { reported_size = some (length file); content = some file };
  output_file = λ path. some all_accepted;
}

world_keeps : KeepsFlags world
world_keeps name snaplen promiscuous timeout h e = keeps h e

main-Exits_example : Exits (main world (codes "--config" ∷ codes "a.ini" ∷ []))
main-Exits_example = main-Exits world (codes "--config" ∷ codes "a.ini" ∷ []) world_keeps

loads :
    (load_from_file (some (some (codes "[tls]\napp_data_keep_record_bytes = 6\n")))).error ≡ none
unfolding load_from_file lines_of strip_inline_comment is_space split_equals assign_value bytes_beq
    to_lower lower assign_tls parse_uint32 is_digit
loads = refl

main_offline_example :
    let config =
      (load_from_file (some (some (codes "[tls]\napp_data_keep_record_bytes = 6\n")))).config in
    (o : Exited) × (main world
        (codes "--config" ∷ codes "a.ini" ∷ codes "--offline-input" ∷ codes "a.pcap" ∷ [])
      ≡ exited o)
    × (out : OutStream) × (o.output ≡ some out)
    × (out.content
        ≡ []
          ++ file_bytes clocks.system
              (output_snaplen file_reader config)
              (decided clocks.system (fuel_for file_reader) (new_policy config) file_reader))
main_offline_example =
    main_offline world (codes "a.ini") (codes "a.pcap") all_accepted file_reader loads refl
      file_opens (λ n. refl)
