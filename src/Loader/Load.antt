-- ===== src/Loader/Load.antt =====
-- ConfigLoader::LoadFromString and LoadFromFile of config/ConfigLoader.cpp. The name of the source,
-- which every message starts with, is left out.
use pcap_constrictor_win_pac.Base.{
  ℕ, ◌+◌, not, Option, none, some, List, [], ◌∷◌, Bytes, ◌==◌, if◌then◌else◌, is_empty,
}
use pcap_constrictor_win_pac.Loader.Assign.{
  ConfigMessage, unterminated_section, empty_section, expected_key_value, key_before_section,
  empty_key, zero_snaplen, zero_max_capture_len, assigned, invalid, assign_value,
}
use pcap_constrictor_win_pac.Loader.Text.{
  trim, strip_inline_comment, lines_of, split_equals, last_or, all_but_last,
}
use pcap_constrictor_win_pac.Policy.Config.{PolicyConfig, default_config}

-- The error of a result: a file that cannot be opened or read, or a message with its line, which is
-- 0 for the configuration as a whole.
pub data ConfigError : Type 0 where
  cannot_open cannot_read : ConfigError
  at_line : ℕ → ConfigMessage → ConfigError

pub record ConfigLoadResult : Type 0 where
  pub config : PolicyConfig
  pub error : Option ConfigError

-- The local variables of the loop over the lines.
pub record Loading : Type 0 where
  pub config : PolicyConfig
  pub current_section : Bytes

pub data LineResult : Type 0 where
  read_on : Loading → LineResult
  rejected : ConfigMessage → LineResult

-- A line that starts with `[`; `name` is the text between the brackets.
unfoldable pub load_section : Loading → Bytes → LineResult
load_section s cleaned =
    let name = trim (all_but_last cleaned) in
    if not (last_or b'[' cleaned == b']')
    then rejected unterminated_section
    else if is_empty name
    then rejected empty_section
    else read_on (record s { current_section = name })

unfoldable pub load_key_value : Loading → Bytes → Bytes → LineResult
load_key_value s key value =
    if is_empty s.current_section
    then rejected key_before_section
    else if is_empty key
    then rejected empty_key
    else elim (assign_value s.config s.current_section key value) [
      | invalid message ↦ rejected message
      | assigned config ↦ read_on (record s { config = config })
    ]

-- A line without its comment and the spaces around it.
unfoldable pub load_cleaned : Loading → Bytes → LineResult
unfolding load_section load_key_value
load_cleaned s [] = read_on s
load_cleaned s (c ∷ cs) = if c == b'[' then load_section s cs else elim (split_equals (c ∷ cs)) [
  | none ↦ rejected expected_key_value
  | some (key, value) ↦ load_key_value s (trim key) (trim value)
]

unfoldable pub load_line : Loading → Bytes → LineResult
unfolding load_cleaned
load_line s line = load_cleaned s (strip_inline_comment line)

-- The checks behind the loop.
unfoldable pub finish : PolicyConfig → ConfigLoadResult
finish config =
    if config.capture.default_snaplen == 0
    then record { config = config; error = some (at_line 0 zero_snaplen) }
    else if config.capture.max_capture_len == 0
    then record { config = config; error = some (at_line 0 zero_max_capture_len) }
    else record { config = config; error = none }

-- The loop, behind `line_number` lines.
unfoldable pub load_lines : Loading → ℕ → List Bytes → ConfigLoadResult
unfolding load_line finish
load_lines s line_number [] = finish s.config
load_lines s line_number (line ∷ lines) = elim (load_line s line) [
  | rejected message ↦ record {
    config = s.config;
    error = some (at_line (line_number + 1) message);
  }
  | read_on next ↦ load_lines next (line_number + 1) lines
]

abbrev pub start_loading : Loading
start_loading = record { config = default_config; current_section = [] }

unfoldable pub load_from_string : Bytes → ConfigLoadResult
unfolding load_lines
load_from_string text = load_lines start_loading 0 (lines_of text)

-- LoadFromFile, on what the file system says of the file: whether it opens, and what is read.
unfoldable pub load_from_file : Option (Option Bytes) → ConfigLoadResult
unfolding load_from_string
load_from_file none = record { config = default_config; error = some cannot_open }
load_from_file (some none) = record { config = default_config; error = some cannot_read }
load_from_file (some (some text)) = load_from_string text
