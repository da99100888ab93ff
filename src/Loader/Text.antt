-- ===== src/Loader/Text.antt =====
-- Trim, ToLower and StripInlineComment of config/ConfigLoader.cpp, std::getline, and the search for
-- a separator. Character classes are those of the "C" locale.
use pcap_constrictor_win_pac.Base.{
  ℕ, ◌+◌, Bool, true, ◌&&◌, ◌||◌, Option, none, some, List, [], ◌∷◌, Bytes, leb, ◌==◌,
  if◌then◌else◌, is_empty,
}

-- std::isspace
unfoldable pub is_space : ℕ → Bool
is_space c = c == 32 || (leb 9 c && leb c 13)

unfoldable pub is_digit : ℕ → Bool
is_digit c = leb 48 c && leb c 57

unfoldable pub trim_start : Bytes → Bytes
trim_start [] = []
trim_start (c ∷ cs) = let rest = trim_start cs in if is_space c then rest else c ∷ cs

unfoldable pub trim_end : Bytes → Bytes
trim_end [] = []
trim_end (c ∷ cs) = let rest = trim_end cs in if is_space c && is_empty rest then [] else c ∷ rest

unfoldable pub trim : Bytes → Bytes
unfolding trim_start trim_end
trim text = trim_end (trim_start text)

-- std::tolower
unfoldable pub lower : ℕ → ℕ
lower c = if leb 65 c && leb c 90 then c + 32 else c

unfoldable pub to_lower : Bytes → Bytes
to_lower [] = []
to_lower (c ∷ cs) = lower c ∷ to_lower cs

-- The text before a `;` or `#` that starts it or follows a space; the flag says whether one may
-- start here.
unfoldable pub before_comment : Bool → Bytes → Bytes
before_comment may_start [] = []
before_comment may_start (c ∷ cs) =
    let rest = before_comment (is_space c) cs in
    if (c == b';' || c == b'#') && may_start then [] else c ∷ rest

unfoldable pub strip_inline_comment : Bytes → Bytes
unfolding trim before_comment
strip_inline_comment text = trim (before_comment true text)

abbrev pub put_front : ℕ → List Bytes → List Bytes
put_front c [] = (c ∷ []) ∷ []
put_front c (l ∷ ls) = (c ∷ l) ∷ ls

-- The lines that std::getline delivers: a newline at the end starts no further line.
unfoldable pub lines_of : Bytes → List Bytes
lines_of [] = []
lines_of (c ∷ cs) = let rest = lines_of cs in if c == 10 then [] ∷ rest else put_front c rest

-- The pieces between commas, at least one.
unfoldable pub pieces : Bytes → List Bytes
pieces [] = [] ∷ []
pieces (c ∷ cs) = let rest = pieces cs in if c == b',' then [] ∷ rest else put_front c rest

-- What stands before and behind the first `=`.
unfoldable pub split_equals : Bytes → Option (Bytes × Bytes)
split_equals [] = none
split_equals (c ∷ cs) =
    let rest = split_equals cs in
    if c == b'='
    then some ([], cs)
    else elim rest [ none ↦ none | some (key, value) ↦ some (c ∷ key, value) ]

-- The last character, `d` for none.
abbrev pub last_or : ℕ → Bytes → ℕ
last_or d [] = d
last_or d (c ∷ cs) = last_or c cs

-- Everything but the last character.
abbrev pub all_but_last : Bytes → Bytes
all_but_last [] = []
all_but_last (c ∷ []) = []
all_but_last (c ∷ d ∷ cs) = c ∷ all_but_last (d ∷ cs)
