-- ===== src/Npcap/Listing.antt =====
-- capture/NpcapInterfaceListFormatting.cpp.
use pcap_constrictor_win_pac.Base.{
  ℕ, ◌+◌, Bool, List, [], ◌∷◌, ◌++◌, ◌==◌, Bytes, codes, is_empty, to_string, length, if◌then◌else◌,
}
use pcap_constrictor_win_pac.Npcap.Interfaces.{NpcapInterfaceInfo}

-- The parts from `index` on.
unfoldable pub join_from : ℕ → List Bytes → Bytes
join_from index [] = []
join_from index (part ∷ parts) =
    (if index == 0 then [] else codes ", ") ++ (part ++ join_from (index + 1) parts)

unfoldable pub join_strings : List Bytes → Bytes
unfolding join_from
join_strings parts = join_from 0 parts

abbrev when : Bool → Bytes → List Bytes → List Bytes
when test name rest = if test then name ∷ rest else rest

unfoldable pub collect_flags : NpcapInterfaceInfo → List Bytes
collect_flags info = when info.is_loopback (codes "loopback") (
    when info.is_up (codes "up")
      (when info.is_running (codes "running") (when info.is_wireless (codes "wireless") [])))

-- A line that is left out where there is nothing to show.
unfoldable pub shown : Bytes → Bool → Bytes → Bytes
shown label nothing text = if nothing then [] else label ++ (text ++ codes "\n")

unfoldable pub format_interface : ℕ → NpcapInterfaceInfo → Bytes
unfolding shown join_strings collect_flags to_string
format_interface index info =
    codes "["
    ++ (to_string index
        ++ (codes "]\n  name: "
            ++ (info.name
                ++ (codes "\n"
                    ++ (shown (codes "  description: ") (is_empty info.description) info.description
                        ++ (shown (codes "  addresses: ") (is_empty info.addresses)
                              (join_strings info.addresses)
                            ++ shown (codes "  flags: ") (is_empty (collect_flags info))
                                (join_strings (collect_flags info))))))))

-- The interfaces from `index` on, of `size` in all.
unfoldable pub format_from : ℕ → ℕ → List NpcapInterfaceInfo → Bytes
unfolding format_interface
format_from size index [] = []
format_from size index (info ∷ infos) =
    format_interface index info
    ++ ((if index + 1 == size then [] else codes "\n") ++ format_from size (index + 1) infos)

unfoldable pub format_interface_list : List NpcapInterfaceInfo → Bytes
unfolding format_from
format_interface_list infos = format_from (length infos) 0 infos
