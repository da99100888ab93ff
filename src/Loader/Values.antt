-- ===== src/Loader/Values.antt =====
-- ParseBool, ParseTlsAppDataContinuationPolicy, ParseUint32, ParseUint64 and ParsePorts of
-- config/ConfigLoader.cpp. A `bool` with a reference output is an `Option` of it.
use pcap_constrictor_win_pac.Base.{
  ℕ, ◌+◌, ◌-◌, ◌*◌, ◌^◌, Bool, true, false, ◌||◌, Option, none, some, List, [], ◌∷◌, Bytes,
  bytes_beq, ltb, if◌then◌else◌, is_empty,
}
use pcap_constrictor_win_pac.Loader.Text.{is_digit, trim, to_lower, pieces}
use pcap_constrictor_win_pac.Loader.Words.{
  word_true, word_false, word_one, word_zero, word_final_only, word_stream, word_bulk,
}
use pcap_constrictor_win_pac.Policy.Config.{TlsAppDataContinuationPolicy, final_only, stream, bulk}

unfoldable pub parse_bool : Bytes → Option Bool
parse_bool value =
    let lowered = to_lower (trim value) in
    if bytes_beq lowered word_true || bytes_beq lowered word_one
    then some true
    else if bytes_beq lowered word_false || bytes_beq lowered word_zero
    then some false
    else none

unfoldable pub parse_continuation_policy : Bytes → Option TlsAppDataContinuationPolicy
parse_continuation_policy value =
    let lowered = to_lower (trim value) in
    if bytes_beq lowered word_final_only
    then some final_only
    else if bytes_beq lowered word_stream
    then some stream
    else if bytes_beq lowered word_bulk
    then some bulk
    else none

-- The number that the digits write behind `acc`, if there are only digits.
unfoldable pub digits_value : ℕ → Bytes → Option ℕ
digits_value acc [] = some acc
digits_value acc (c ∷ cs) =
    let rest = digits_value (acc * 10 + (c - 48)) cs in if is_digit c then rest else none

-- std::from_chars to an unsigned type with the greatest value `greatest`, over the whole text.
unfoldable pub parse_unsigned : ℕ → Bytes → Option ℕ
unfolding digits_value
parse_unsigned greatest value =
    let trimmed = trim value in
    if is_empty trimmed then none else elim (digits_value 0 trimmed) [
      | none ↦ none
      | some n ↦ if ltb greatest n then none else some n
    ]

unfoldable pub parse_uint32 : Bytes → Option ℕ
unfolding parse_unsigned
parse_uint32 value = parse_unsigned (2 ^ 32 - 1) value

unfoldable pub parse_uint64 : Bytes → Option ℕ
unfolding parse_unsigned
parse_uint64 value = parse_unsigned (2 ^ 64 - 1) value

unfoldable pub parse_port : Bytes → Option ℕ
unfolding parse_uint32
parse_port piece =
    let token = trim piece in
    if is_empty token
    then none
    else elim (parse_uint32 token) [ none ↦ none | some n ↦ if ltb 65535 n then none else some n ]

unfoldable pub parse_all : List Bytes → Option (List ℕ)
unfolding parse_port
parse_all [] = some []
parse_all (t ∷ ts) = elim (parse_port t) [
  | none ↦ none
  | some n ↦ elim (parse_all ts) [ none ↦ none | some ns ↦ some (n ∷ ns) ]
]

unfoldable pub parse_ports : Bytes → Option (List ℕ)
unfolding pieces parse_all
parse_ports value = parse_all (pieces value)
