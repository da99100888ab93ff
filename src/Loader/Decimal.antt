-- ===== src/Loader/Decimal.antt =====
-- Numbers in decimal are read back by ParseUint32 and ParseUint64.
use pcap_constrictor_win_pac.Base.{
  ℕ, zero, suc, ◌+◌, ◌-◌, ◌*◌, ◌/◌, ◌%◌, ◌<◌, ◌≤◌, ◌≡◌, refl, ap, ◌∙◌, true, false, none, some, [],
  ◌∷◌, ◌++◌, Bytes, ltb, leb, if◌then◌else◌, arith, Bool-cases, inl, inr, digits, decimal, is_empty,
}
use pcap_constrictor_win_pac.Loader.Text.{is_space, is_digit, trim, trim_start, trim_end}
use pcap_constrictor_win_pac.Loader.Values.{digits_value, parse_unsigned}

data AllDigits : Bytes → Type 0 where
  no_digit : AllDigits []
  digit : {c : ℕ} {cs : Bytes} → is_digit c ≡ true → AllDigits cs → AllDigits (c ∷ cs)

AllDigits-append :
    {xs : Bytes} (c : ℕ) → is_digit c ≡ true → AllDigits xs → AllDigits (xs ++ (c ∷ []))
AllDigits-append c h no_digit = digit h no_digit
AllDigits-append c h (digit g xs) = digit g (AllDigits-append c h xs)

digits-AllDigits : (fuel n : ℕ) → AllDigits (digits fuel n)
unfolding is_digit
digits-AllDigits zero n = no_digit
digits-AllDigits (suc fuel) n = elim (Bool-cases (ltb n 10)) [
  | inl e ↦ rw e (digit (ground arith) no_digit)
  | inr e ↦ rw e (AllDigits-append (48 + n % 10) (ground arith) (digits-AllDigits fuel (n / 10)))
]

trim_end-AllDigits : {xs : Bytes} → AllDigits xs → trim_end xs ≡ xs
unfolding trim_end is_space is_digit
trim_end-AllDigits no_digit = refl
trim_end-AllDigits (digit h xs) = ground (arith, trim_end-AllDigits xs)

trim_start-AllDigits : {xs : Bytes} → AllDigits xs → trim_start xs ≡ xs
unfolding trim_start is_space is_digit
trim_start-AllDigits no_digit = refl
trim_start-AllDigits (digit h xs) = ground arith

trim-AllDigits : {xs : Bytes} → AllDigits xs → trim xs ≡ xs
unfolding trim
trim-AllDigits d = ap trim_end (trim_start-AllDigits d) ∙ trim_end-AllDigits d

digits_value-append :
    (acc d : ℕ) (xs : Bytes) {v : ℕ}
    → digits_value acc xs ≡ some v
    → is_digit d ≡ true
    → digits_value acc (xs ++ (d ∷ [])) ≡ some (v * 10 + (d - 48))
unfolding digits_value
digits_value-append acc d [] e h = ground arith
digits_value-append acc d (c ∷ xs) {v = v} e h =
    ground (arith, digits_value-append (acc * 10 + (c - 48)) d xs {v = v})

digits_value-digits : (fuel n : ℕ) → n < fuel → digits_value 0 (digits fuel n) ≡ some n
unfolding digits_value is_digit
digits_value-digits zero n h = absurd (omega arith)
digits_value-digits (suc fuel) n h = elim (Bool-cases (ltb n 10)) [
  | inl e ↦ rw e (ground arith)
  | inr e ↦
      let big : 10 ≤ n = ground arith in
      rw e (
        digits_value-append 0 (48 + n % 10) (digits fuel (n / 10))
          (digits_value-digits fuel (n / 10) (omega arith)) (ground arith)
        ∙ ap some (omega arith))
]

is_empty-append : (xs : Bytes) (c : ℕ) → is_empty (xs ++ (c ∷ [])) ≡ false
is_empty-append [] c = refl
is_empty-append (x ∷ xs) c = refl

digits-nonempty : (fuel n : ℕ) → is_empty (digits (suc fuel) n) ≡ false
digits-nonempty fuel n = elim (Bool-cases (ltb n 10)) [
  | inl e ↦ rw e refl
  | inr e ↦ rw e (is_empty-append (digits fuel (n / 10)) (48 + n % 10))
]

-- A number that fits the type, written in decimal, is what std::from_chars and the checks around it
-- read; a number that does not fit is refused.
pub parse_unsigned-decimal :
    (greatest n : ℕ)
    → parse_unsigned greatest (decimal n) ≡ (if leb n greatest then some n else none)
unfolding parse_unsigned
parse_unsigned-decimal greatest n =
    let same = trim-AllDigits (digits-AllDigits (suc n) n) in
    let value = digits_value-digits (suc n) n (omega arith) in
    rw (same, digits-nonempty n n, value) (ground arith)
