-- ===== src/Tests/Settings.antt =====
-- Configuration texts.
use pcap_constrictor_win_pac.Base.{
  ◌+◌, ◌<◌, ◌≤◌, ◌≡◌, refl, some, List, [], ◌∷◌, ◌++◌, Bytes, decimal,
}
use pcap_constrictor_win_pac.Loader.Assign.{expected_key_value}
use pcap_constrictor_win_pac.Loader.Decimal.{parse_unsigned-decimal}
use pcap_constrictor_win_pac.Loader.Load.{
  load_from_string, load_lines, load_line, load_cleaned, load_section, start_loading,
}
use pcap_constrictor_win_pac.Loader.Outcome.{load_from_string-IsTyped, load_lines-append}
use pcap_constrictor_win_pac.Loader.Text.{strip_inline_comment, is_space, split_equals}
use pcap_constrictor_win_pac.Loader.Valid.{IsTyped}
use pcap_constrictor_win_pac.Loader.Values.{parse_unsigned}

-- A section, and a line that is no key and value.
abbrev bad_lines : List Bytes
bad_lines =
    (b'[' ∷ b't' ∷ b'l' ∷ b's' ∷ b']' ∷ [])
    ∷ (b'#' ∷ b'x' ∷ [])
    ∷ (b'o' ∷ b'o' ∷ b'p' ∷ b's' ∷ [])
    ∷ []

abbrev short_text : Bytes
short_text = b'[' ∷ b's' ∷ b']' ∷ 10 ∷ []

load_from_string-IsTyped_example : IsTyped (load_from_string short_text).config
load_from_string-IsTyped_example = load_from_string-IsTyped short_text

load_lines-append_example :
    (load_lines start_loading 0 (bad_lines ++ (short_text ∷ []))
      ≡ load_lines start_loading 0 bad_lines)
    × (0 < 3)
    × (3 ≤ 0 + 3)
unfolding load_lines load_line load_cleaned load_section strip_inline_comment is_space split_equals
load_lines-append_example =
    load_lines-append start_loading 0 bad_lines (short_text ∷ []) 2 expected_key_value refl

parse_unsigned-decimal_example : parse_unsigned 65535 (decimal 8443) ≡ some 8443
parse_unsigned-decimal_example = parse_unsigned-decimal 65535 8443
