-- ===== src/Base/Table.antt =====
-- `std::unordered_map` as an association list behind its laws: at most one live entry is seen for
-- a key, `operator[]` inserts a default, `erase` of a missing key does nothing.
use mathlib.Core.Path.{◌≡◌}
use mathlib.Core.Option.{Option, none, some}
use mathlib.Core.List.{List, [], ◌∷◌}
use native.Mathlib.Omega.{arith}
use pcap_constrictor_win_pac.Base.Tests.{if◌then◌else◌, Eq}

abbrev pub Table {ℓ κ} : Type ℓ → Type κ → Type (ℓ ⊔ κ)
Table K V = List (K × V)

module _ {ℓ κ} {K : Type ℓ} {V : Type κ} ⦃e : Eq K⦄ where
  unfoldable pub find : K → Table K V → Option V
  find k [] = none
  find k ((j, v) ∷ m) = if e.beq j k then some v else find k m

  unfoldable pub erase : K → Table K V → Table K V
  erase k [] = []
  erase k ((j, v) ∷ m) = let rest = erase k m in if e.beq j k then rest else (j, v) ∷ rest

  unfoldable pub store : K → V → Table K V → Table K V
  unfolding erase
  store k v m = (k, v) ∷ erase k m

  -- What `map[key]` refers to: the entry, or the default that is inserted.
  unfoldable pub find_or : K → V → Table K V → V
  unfolding find
  find_or k d m = elim (find k m) [ none ↦ d | some v ↦ v ]

  pub find-erase :
      (k j : K) (m : Table K V) → find j (erase k m) ≡ (if e.beq k j then none else find j m)
  unfolding find erase
  find-erase k j [] = ground arith
  find-erase k j ((i, v) ∷ m) =
      ground (arith, e.beq_iff i k, e.beq_iff i j, e.beq_iff k j, find-erase k j m)

  pub find-store :
      (k j : K) (v : V) (m : Table K V)
      → find j (store k v m) ≡ (if e.beq k j then some v else find j m)
  unfolding find store
  find-store k j v m = ground (arith, find-erase k j m)
