-- ===== src/Base/Text.antt =====
-- Texts as bytes, and `std::to_string` of an unsigned number.
use Prim.Native.Char.{code}
use Prim.Native.Nat.{ℕ, zero, suc, ◌+◌, ◌/◌, ◌%◌}
use Prim.Native.String.{String}
use mathlib.Core.Bool.{Bool, true, false}
use mathlib.Core.List.{List, [], ◌∷◌, ◌++◌}
use pcap_constrictor_win_pac.Base.Tests.{ltb, if◌then◌else◌}
use pcap_constrictor_win_pac.Base.Lists.{Bytes}

-- The bytes of a text of ASCII characters.
abbrev pub codes : String → Bytes
codes String.[] = []
codes (String.◌∷◌ c s) = code c ∷ codes s

abbrev pub is_empty {ℓ} : {A : Type ℓ} → List A → Bool
is_empty [] = true
is_empty (x ∷ xs) = false

-- The decimal digits of `n`, at most `fuel`.
abbrev pub digits : ℕ → ℕ → Bytes
digits zero n = []
digits (suc fuel) n =
    let front = digits fuel (n / 10) in
    if ltb n 10 then (48 + n) ∷ [] else front ++ ((48 + n % 10) ∷ [])

-- A number has fewer digits than its successor has units.
abbrev pub decimal : ℕ → Bytes
decimal n = digits (suc n) n

-- A text from a number, shut against evaluation.
unfoldable pub to_string : ℕ → Bytes
to_string n = decimal n
