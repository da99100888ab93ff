-- ===== src/Loader/Outcome.antt =====
-- What ConfigLoader::LoadFromString promises of its result.
use pcap_constrictor_win_pac.Base.{
  ℕ, suc, ◌+◌, ◌<◌, ◌≤◌, ◌≡◌, ◌≢◌, refl, true, none, some, List, [], ◌∷◌, ◌++◌, Bytes, arith,
  Option-cases, inl, inr, ◌⊎◌, length, subst, ap, ◌∙◌, sym,
}
use pcap_constrictor_win_pac.Loader.Assign.{ConfigMessage}
use pcap_constrictor_win_pac.Loader.Load.{
  at_line, ConfigLoadResult, Loading, LineResult, read_on, rejected, load_section, load_key_value,
  load_cleaned, load_line, finish, load_lines, start_loading, load_from_string,
}
use pcap_constrictor_win_pac.Loader.Text.{trim, strip_inline_comment, lines_of, split_equals}
use pcap_constrictor_win_pac.Loader.Valid.{no_port, one_more, IsTyped, assign_value-Keeps}
use pcap_constrictor_win_pac.Policy.Config.{PolicyConfig, default_config}

abbrev KeepsLine : LineResult → Type 0
KeepsLine (read_on s) = IsTyped s.config
KeepsLine (rejected m) = true ≡ true

module _ (s : Loading) (typed : IsTyped s.config) where
  load_key_value-KeepsLine : (key value : Bytes) → KeepsLine (load_key_value s key value)
  unfolding load_key_value
  load_key_value-KeepsLine key value =
      ground (arith, typed, assign_value-Keeps s.config typed s.current_section key value)

  load_section-KeepsLine : (cs : Bytes) → KeepsLine (load_section s cs)
  unfolding load_section
  load_section-KeepsLine cs = ground (arith, typed)

  load_cleaned-KeepsLine : (text : Bytes) → KeepsLine (load_cleaned s text)
  unfolding load_cleaned
  load_cleaned-KeepsLine [] = typed
  load_cleaned-KeepsLine (c ∷ cs) = elim (Option-cases (split_equals (c ∷ cs))) [
    | inl e ↦ ground (arith, e, load_section-KeepsLine cs)
    | inr ((key, value), e) ↦
        ground
          (arith, e, load_section-KeepsLine cs, load_key_value-KeepsLine (trim key) (trim value))
  ]

  load_line-KeepsLine : (line : Bytes) → KeepsLine (load_line s line)
  unfolding load_line
  load_line-KeepsLine line = load_cleaned-KeepsLine (strip_inline_comment line)

finish-config : (c : PolicyConfig) → (finish c).config ≡ c
unfolding finish
finish-config c = ground arith

LineResult-cases :
    (r : LineResult) → ((s : Loading) × (r ≡ read_on s)) ⊎ ((m : ConfigMessage) × (r ≡ rejected m))
LineResult-cases (read_on s) = inl (s, refl)
LineResult-cases (rejected m) = inr (m, refl)

load_lines-IsTyped :
    (s : Loading) (n : ℕ) (lines : List Bytes)
    → IsTyped s.config
    → IsTyped (load_lines s n lines).config
unfolding load_lines
load_lines-IsTyped s n [] typed = subst IsTyped (sym (finish-config s.config)) typed
load_lines-IsTyped s n (line ∷ lines) typed = elim (LineResult-cases (load_line s line)) [
  | inl (next, e) ↦
      rw (e, load_lines)
        (load_lines-IsTyped next (n + 1) lines
          (subst KeepsLine e (load_line-KeepsLine s typed line)))
  | inr (m, e) ↦ rw (e, load_lines) typed
]

default-IsTyped : IsTyped default_config
default-IsTyped = record {
  min_saved = omega arith;
  snaplen = omega arith;
  capture_len = omega arith;
  packets = omega arith;
  duration = omega arith;
  timeout = omega arith;
  tls_ports = one_more (omega arith) (one_more (omega arith) no_port);
  keep_record = omega arith;
  keep_continuation = omega arith;
  supported = refl;
  quic_ports = one_more (omega arith) (one_more (omega arith) no_port);
  keep_short = omega arith;
}

-- Whatever the text, every number of the configuration that is returned fits its type, every port
-- is below 65536, and the continuation policy is the one that the program supports; also where an
-- error is returned with it.
pub load_from_string-IsTyped : (text : Bytes) → IsTyped (load_from_string text).config
unfolding load_from_string
load_from_string-IsTyped text = load_lines-IsTyped start_loading 0 (lines_of text) default-IsTyped

finish_usable :
    (c : PolicyConfig)
    → (finish c).error ≡ none
    → (0 < (finish c).config.capture.default_snaplen)
      × (0 < (finish c).config.capture.max_capture_len)
unfolding finish
finish_usable c e = ground arith

module _ (s : Loading) (n : ℕ) (line : Bytes) (lines : List Bytes) where
  load_lines_read :
      {next : Loading}
      → load_line s line ≡ read_on next
      → load_lines s n (line ∷ lines) ≡ load_lines next (n + 1) lines
  unfolding load_lines
  load_lines_read h = rw (h, load_lines) refl

  load_lines_rejected :
      {m : ConfigMessage}
      → load_line s line ≡ rejected m
      → load_lines s n (line ∷ lines)
        ≡ record { config = s.config; error = some (at_line (n + 1) m) }
  unfolding load_lines
  load_lines_rejected h = rw (h, load_lines) refl

load_lines_end : (s : Loading) (n : ℕ) → load_lines s n [] ≡ finish s.config
unfolding load_lines
load_lines_end s n = refl

abbrev HasLimits : ConfigLoadResult → Type 0
HasLimits r = (0 < r.config.capture.default_snaplen) × (0 < r.config.capture.max_capture_len)

load_lines-HasLimits :
    (s : Loading) (n : ℕ) (lines : List Bytes)
    → (load_lines s n lines).error ≡ none
    → HasLimits (load_lines s n lines)
load_lines-HasLimits s n [] e =
    subst HasLimits (sym (load_lines_end s n))
      (finish_usable s.config (ap (λ r. r.error) (sym (load_lines_end s n)) ∙ e))
load_lines-HasLimits s n (line ∷ lines) e = elim (LineResult-cases (load_line s line)) [
  | inl (next, h) ↦
      let same = load_lines_read s n line lines h in
      subst HasLimits (sym same)
        (load_lines-HasLimits next (n + 1) lines (ap (λ r. r.error) (sym same) ∙ e))
  | inr (m, h) ↦
      absurd (ground (arith, ap (λ r. r.error) (sym (load_lines_rejected s n line lines h)) ∙ e))
]

-- A configuration that is returned without an error can be captured with: neither limit on the
-- length of a packet is 0.
pub load_from_string_usable :
    (text : Bytes)
    → (load_from_string text).error ≡ none
    → (0 < (load_from_string text).config.capture.default_snaplen)
      × (0 < (load_from_string text).config.capture.max_capture_len)
unfolding load_from_string
load_from_string_usable text e = load_lines-HasLimits start_loading 0 (lines_of text) e

finish_line :
    (c : PolicyConfig) {line : ℕ} {m : ConfigMessage}
    → (finish c).error ≢ some (at_line (suc line) m)
unfolding finish
finish_line c e = ground arith

-- The error of the first line that is rejected is final: its number lies among the lines read, and
-- the result does not depend on any line behind them.
pub load_lines-append :
    (s : Loading) (n : ℕ) (lines more : List Bytes) (line : ℕ) (m : ConfigMessage)
    → (load_lines s n lines).error ≡ some (at_line (suc line) m)
    → (load_lines s n (lines ++ more) ≡ load_lines s n lines)
      × (n < suc line)
      × (suc line ≤ n + length lines)
load_lines-append s n [] more line m e =
    absurd (finish_line s.config (ap (λ r. r.error) (sym (load_lines_end s n)) ∙ e))
load_lines-append s n (l ∷ lines) more line m e = elim (LineResult-cases (load_line s l)) [
  | inl (next, h) ↦
      let same = load_lines_read s n l lines h in
      let (rest, low, high) =
        load_lines-append next (n + 1) lines more line m (ap (λ r. r.error) (sym same) ∙ e) in
      (load_lines_read s n l (lines ++ more) h ∙ rest ∙ sym same, omega arith, omega arith)
  | inr (why, h) ↦
      let stopped = load_lines_rejected s n l lines h in
      let at : some (at_line (n + 1) why) ≡ some (at_line (suc line) m) =
        ap (λ r. r.error) (sym stopped) ∙ e in
      let number : n + 1 ≡ suc line = ground arith in
      (load_lines_rejected s n l (lines ++ more) h ∙ sym stopped, omega arith, omega arith)
]
