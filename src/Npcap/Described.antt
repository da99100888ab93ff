-- ===== src/Npcap/Described.antt =====
-- The list of interfaces against a description by lines.
use pcap_constrictor_win_pac.Base.{
  ℕ, ◌+◌, Bool, true, false, List, [], ◌∷◌, ◌++◌, ◌==◌, Bytes, codes, is_empty, to_string, length,
  if◌then◌else◌, ◌<◌, ◌≡◌, refl, sym, ap, ap₂, ◌∙◌, arith,
}
use mathlib.Core.List.{append-nil, append_assoc}
use pcap_constrictor_win_pac.Npcap.Interfaces.{NpcapInterfaceInfo}
use pcap_constrictor_win_pac.Npcap.Listing.{
  join_from, join_strings, collect_flags, shown, format_interface, format_from,
  format_interface_list,
}

-- Texts with a separator between any two of them.
abbrev pub intercalate : Bytes → List Bytes → Bytes
intercalate separator [] = []
intercalate separator (text ∷ []) = text
intercalate separator (text ∷ next ∷ texts) =
    text ++ (separator ++ intercalate separator (next ∷ texts))

-- Lines, each with its line feed.
abbrev pub unlines : List Bytes → Bytes
unlines [] = []
unlines (line ∷ lines) = line ++ (codes "\n" ++ unlines lines)

abbrev pub unless : {A : Type 0} → Bool → A → List A → List A
unless nothing line lines = if nothing then lines else line ∷ lines

abbrev pub names : List (Bool × Bytes) → List Bytes
names [] = []
names ((true, name) ∷ flags) = name ∷ names flags
names ((false, name) ∷ flags) = names flags

abbrev pub flag_names : NpcapInterfaceInfo → List Bytes
flag_names info = names (
    (info.is_loopback, codes "loopback")
    ∷ (info.is_up, codes "up")
    ∷ (info.is_running, codes "running")
    ∷ (info.is_wireless, codes "wireless")
    ∷ [])

-- What is said of an interface: its number, its name, and what there is of a description, of
-- addresses and of flags.
abbrev pub description_lines : ℕ → NpcapInterfaceInfo → List Bytes
description_lines index info =
    (codes "[" ++ (to_string index ++ codes "]"))
    ∷ (codes "  name: " ++ info.name)
    ∷ unless (is_empty info.description) (codes "  description: " ++ info.description) (
        unless (is_empty info.addresses)
          (codes "  addresses: " ++ intercalate (codes ", ") info.addresses)
          (unless (is_empty (flag_names info))
            (codes "  flags: " ++ intercalate (codes ", ") (flag_names info)) []))

-- The interfaces, numbered from `index` on.
abbrev pub blocks : ℕ → List NpcapInterfaceInfo → List Bytes
blocks index [] = []
blocks index (info ∷ infos) = unlines (description_lines index info) ∷ blocks (index + 1) infos

join_from-intercalate :
    (index : ℕ) (part : Bytes) (parts : List Bytes)
    → 0 < index
    → join_from index (part ∷ parts) ≡ codes ", " ++ intercalate (codes ", ") (part ∷ parts)
unfolding join_from
join_from-intercalate index part [] pos =
    let inner : (index == 0) ≡ false = ground arith in
    rw inner (ap (λ bs. codes ", " ++ bs) (append-nil part))
join_from-intercalate index part (next ∷ parts) pos =
    let inner : (index == 0) ≡ false = ground arith in
    rw inner (
      ap (λ bs. codes ", " ++ (part ++ bs))
        (join_from-intercalate (index + 1) next parts (omega arith)))

pub join_strings-intercalate :
    (parts : List Bytes) → join_strings parts ≡ intercalate (codes ", ") parts
unfolding join_strings
join_strings-intercalate [] = refl
join_strings-intercalate (part ∷ []) = append-nil part
join_strings-intercalate (part ∷ next ∷ parts) =
    ap (λ bs. part ++ bs) (join_from-intercalate 1 next parts (omega arith))

collect_flags-flag_names : (info : NpcapInterfaceInfo) → collect_flags info ≡ flag_names info
unfolding collect_flags
collect_flags-flag_names info = ground arith

unlines-unless :
    (nothing : Bool) (label text : Bytes) (lines : List Bytes)
    → shown label nothing text ++ unlines lines ≡ unlines (unless nothing (label ++ text) lines)
unfolding shown
unlines-unless true label text lines = refl
unlines-unless false label text lines =
    append_assoc label (text ++ codes "\n") (unlines lines)
    ∙ ap (λ bs. label ++ bs) (append_assoc text (codes "\n") (unlines lines))
    ∙ sym (append_assoc label text (codes "\n" ++ unlines lines))

format_interface-unlines :
    (index : ℕ) (info : NpcapInterfaceInfo)
    → format_interface index info ≡ unlines (description_lines index info)
unfolding format_interface
format_interface-unlines index info =
    let flags = collect_flags-flag_names info in
    let addresses_text = intercalate (codes ", ") info.addresses in
    let flags_text = intercalate (codes ", ") (flag_names info) in
    let described = shown (codes "  description: ") (is_empty info.description) info.description in
    let addressed = shown (codes "  addresses: ") (is_empty info.addresses) addresses_text in
    let flagged = shown (codes "  flags: ") (is_empty (flag_names info)) flags_text in
    let flag_lines = unless (is_empty (flag_names info)) (codes "  flags: " ++ flags_text) [] in
    let address_lines =
      unless (is_empty info.addresses) (codes "  addresses: " ++ addresses_text) flag_lines in
    let lines =
      ap₂
        (λ (addresses flag_text : Bytes).
          described
          ++ (shown (codes "  addresses: ") (is_empty info.addresses) addresses ++ flag_text))
        (join_strings-intercalate info.addresses)
        (ap₂
          (λ (set : List Bytes) (joined : Bytes). shown (codes "  flags: ") (is_empty set) joined)
          flags (ap join_strings flags ∙ join_strings-intercalate (flag_names info)))
      ∙ ap (λ bs. described ++ (addressed ++ bs))
          (sym (append-nil flagged)
            ∙ unlines-unless (is_empty (flag_names info)) (codes "  flags: ") flags_text [])
      ∙ ap (λ bs. described ++ bs)
          (unlines-unless (is_empty info.addresses) (codes "  addresses: ") addresses_text
            flag_lines)
      ∙ unlines-unless (is_empty info.description) (codes "  description: ") info.description
          address_lines in
    ap (λ bs. codes "[" ++ bs)
      (ap (λ bs. to_string index ++ (codes "]\n  name: " ++ (info.name ++ (codes "\n" ++ bs))))
          lines
        ∙ sym (append_assoc (to_string index) (codes "]") _))

format_from-intercalate :
    (size index : ℕ) (infos : List NpcapInterfaceInfo)
    → index + length infos ≡ size
    → format_from size index infos ≡ intercalate (codes "\n") (blocks index infos)
unfolding format_from
format_from-intercalate size index [] e = refl
format_from-intercalate size index (info ∷ []) e =
    let last : (index + 1 == size) ≡ true = ground arith in
    rw last (append-nil (format_interface index info) ∙ format_interface-unlines index info)
format_from-intercalate size index (info ∷ next ∷ infos) e =
    let more : (index + 1 == size) ≡ false = ground arith in
    rw more (λ i.
      format_interface-unlines index info i
      ++ (codes "\n" ++ format_from-intercalate size (index + 1) (next ∷ infos) (omega arith) i))

-- The list of interfaces describes each of them, with one empty line between any two and none
-- behind the last. A description is lines: the number, counted from 0, the name, and where there
-- are any the description, the addresses, and the names of the flags that are set, the last two
-- with a comma and a space between any two.
pub format_interface_list-intercalate :
    (infos : List NpcapInterfaceInfo)
    → format_interface_list infos ≡ intercalate (codes "\n") (blocks 0 infos)
unfolding format_interface_list
format_interface_list-intercalate infos =
    format_from-intercalate (length infos) 0 infos (omega arith)
