-- ===== src/Policy/Text.antt =====
-- LiveCaptureDecision::reason_string of policy/LiveCapturePolicy.cpp.
use pcap_constrictor_win_pac.Base.{
  ◌≡◌, refl, Option, none, some, List, [], ◌∷◌, Bytes, bytes_beq, if◌then◌else◌,
}
use pcap_constrictor_win_pac.Policy.Decide.{DecisionReason}

unfoldable pub reason_string : DecisionReason → Bytes
reason_string DecisionReason.default = b'd' ∷ b'e' ∷ b'f' ∷ b'a' ∷ b'u' ∷ b'l' ∷ b't' ∷ []
reason_string DecisionReason.parse_error =
    b'p' ∷ b'a' ∷ b'r' ∷ b's' ∷ b'e' ∷ b'_' ∷ b'e' ∷ b'r' ∷ b'r' ∷ b'o' ∷ b'r' ∷ []
reason_string DecisionReason.non_ip = b'n' ∷ b'o' ∷ b'n' ∷ b'_' ∷ b'i' ∷ b'p' ∷ []
reason_string DecisionReason.tcp = b't' ∷ b'c' ∷ b'p' ∷ []
reason_string DecisionReason.udp = b'u' ∷ b'd' ∷ b'p' ∷ []
reason_string DecisionReason.tls_candidate =
    b't' ∷ b'l' ∷ b's' ∷ b'_' ∷ b'c' ∷ b'a' ∷ b'n' ∷ b'd' ∷ b'i' ∷ b'd' ∷ b'a' ∷ b't' ∷ b'e' ∷ []
reason_string DecisionReason.tls_application_data_constricted =
    b't' ∷ b'l' ∷ b's' ∷ b'_' ∷ b'a' ∷ b'p' ∷ b'p' ∷ b'l' ∷ b'i' ∷ b'c' ∷ b'a' ∷ b't' ∷ b'i' ∷ b'o'
    ∷ b'n' ∷ b'_' ∷ b'd' ∷ b'a' ∷ b't' ∷ b'a' ∷ b'_' ∷ b'c' ∷ b'o' ∷ b'n' ∷ b's' ∷ b't' ∷ b'r'
    ∷ b'i' ∷ b'c' ∷ b't' ∷ b'e' ∷ b'd' ∷ []
reason_string DecisionReason.tls_malformed_fallback =
    b't' ∷ b'l' ∷ b's' ∷ b'_' ∷ b'm' ∷ b'a' ∷ b'l' ∷ b'f' ∷ b'o' ∷ b'r' ∷ b'm' ∷ b'e' ∷ b'd' ∷ b'_'
    ∷ b'f' ∷ b'a' ∷ b'l' ∷ b'l' ∷ b'b' ∷ b'a' ∷ b'c' ∷ b'k' ∷ []
reason_string DecisionReason.tls_no_record_fallback =
    b't' ∷ b'l' ∷ b's' ∷ b'_' ∷ b'n' ∷ b'o' ∷ b'_' ∷ b'r' ∷ b'e' ∷ b'c' ∷ b'o' ∷ b'r' ∷ b'd' ∷ b'_'
    ∷ b'f' ∷ b'a' ∷ b'l' ∷ b'l' ∷ b'b' ∷ b'a' ∷ b'c' ∷ b'k' ∷ []
reason_string DecisionReason.quic_candidate =
    b'q' ∷ b'u' ∷ b'i' ∷ b'c' ∷ b'_' ∷ b'c' ∷ b'a' ∷ b'n' ∷ b'd' ∷ b'i' ∷ b'd' ∷ b'a' ∷ b't' ∷ b'e'
    ∷ []
reason_string DecisionReason.quic_long_header =
    b'q' ∷ b'u' ∷ b'i' ∷ b'c' ∷ b'_' ∷ b'l' ∷ b'o' ∷ b'n' ∷ b'g' ∷ b'_' ∷ b'h' ∷ b'e' ∷ b'a' ∷ b'd'
    ∷ b'e' ∷ b'r' ∷ []
reason_string DecisionReason.quic_short_header_matched =
    b'q' ∷ b'u' ∷ b'i' ∷ b'c' ∷ b'_' ∷ b's' ∷ b'h' ∷ b'o' ∷ b'r' ∷ b't' ∷ b'_' ∷ b'h' ∷ b'e' ∷ b'a'
    ∷ b'd' ∷ b'e' ∷ b'r' ∷ b'_' ∷ b'm' ∷ b'a' ∷ b't' ∷ b'c' ∷ b'h' ∷ b'e' ∷ b'd' ∷ []
reason_string DecisionReason.quic_short_header_constricted =
    b'q' ∷ b'u' ∷ b'i' ∷ b'c' ∷ b'_' ∷ b's' ∷ b'h' ∷ b'o' ∷ b'r' ∷ b't' ∷ b'_' ∷ b'h' ∷ b'e' ∷ b'a'
    ∷ b'd' ∷ b'e' ∷ b'r' ∷ b'_' ∷ b'c' ∷ b'o' ∷ b'n' ∷ b's' ∷ b't' ∷ b'r' ∷ b'i' ∷ b'c' ∷ b't'
    ∷ b'e' ∷ b'd' ∷ []
reason_string DecisionReason.quic_short_header_unknown_cid_fallback =
    b'q' ∷ b'u' ∷ b'i' ∷ b'c' ∷ b'_' ∷ b's' ∷ b'h' ∷ b'o' ∷ b'r' ∷ b't' ∷ b'_' ∷ b'h' ∷ b'e' ∷ b'a'
    ∷ b'd' ∷ b'e' ∷ b'r' ∷ b'_' ∷ b'u' ∷ b'n' ∷ b'k' ∷ b'n' ∷ b'o' ∷ b'w' ∷ b'n' ∷ b'_' ∷ b'c'
    ∷ b'i' ∷ b'd' ∷ b'_' ∷ b'f' ∷ b'a' ∷ b'l' ∷ b'l' ∷ b'b' ∷ b'a' ∷ b'c' ∷ b'k' ∷ []
reason_string DecisionReason.quic_short_header_dcid_mismatch_fallback =
    b'q' ∷ b'u' ∷ b'i' ∷ b'c' ∷ b'_' ∷ b's' ∷ b'h' ∷ b'o' ∷ b'r' ∷ b't' ∷ b'_' ∷ b'h' ∷ b'e' ∷ b'a'
    ∷ b'd' ∷ b'e' ∷ b'r' ∷ b'_' ∷ b'd' ∷ b'c' ∷ b'i' ∷ b'd' ∷ b'_' ∷ b'm' ∷ b'i' ∷ b's' ∷ b'm'
    ∷ b'a' ∷ b't' ∷ b'c' ∷ b'h' ∷ b'_' ∷ b'f' ∷ b'a' ∷ b'l' ∷ b'l' ∷ b'b' ∷ b'a' ∷ b'c' ∷ b'k' ∷ []
reason_string DecisionReason.quic_malformed_fallback =
    b'q' ∷ b'u' ∷ b'i' ∷ b'c' ∷ b'_' ∷ b'm' ∷ b'a' ∷ b'l' ∷ b'f' ∷ b'o' ∷ b'r' ∷ b'm' ∷ b'e' ∷ b'd'
    ∷ b'_' ∷ b'f' ∷ b'a' ∷ b'l' ∷ b'l' ∷ b'b' ∷ b'a' ∷ b'c' ∷ b'k' ∷ []

abbrev pub all_reasons : List DecisionReason
all_reasons =
    DecisionReason.default ∷ DecisionReason.parse_error ∷ DecisionReason.non_ip ∷ DecisionReason.tcp
    ∷ DecisionReason.udp ∷ DecisionReason.tls_candidate
    ∷ DecisionReason.tls_application_data_constricted ∷ DecisionReason.tls_malformed_fallback
    ∷ DecisionReason.tls_no_record_fallback ∷ DecisionReason.quic_candidate
    ∷ DecisionReason.quic_long_header ∷ DecisionReason.quic_short_header_matched
    ∷ DecisionReason.quic_short_header_constricted
    ∷ DecisionReason.quic_short_header_unknown_cid_fallback
    ∷ DecisionReason.quic_short_header_dcid_mismatch_fallback
    ∷ DecisionReason.quic_malformed_fallback ∷ []

-- The first reason of the list with the text.
abbrev pub first_with : Bytes → List DecisionReason → Option DecisionReason
first_with text [] = none
first_with text (r ∷ rs) = if bytes_beq (reason_string r) text then some r else first_with text rs

-- The text of a decision tells the reason: looking it up among the texts of all reasons finds
-- that reason first, so that no two reasons share a text.
pub first_with-reason_string :
    (r : DecisionReason) → first_with (reason_string r) all_reasons ≡ some r
unfolding reason_string bytes_beq
first_with-reason_string DecisionReason.default = refl
first_with-reason_string DecisionReason.parse_error = refl
first_with-reason_string DecisionReason.non_ip = refl
first_with-reason_string DecisionReason.tcp = refl
first_with-reason_string DecisionReason.udp = refl
first_with-reason_string DecisionReason.tls_candidate = refl
first_with-reason_string DecisionReason.tls_application_data_constricted = refl
first_with-reason_string DecisionReason.tls_malformed_fallback = refl
first_with-reason_string DecisionReason.tls_no_record_fallback = refl
first_with-reason_string DecisionReason.quic_candidate = refl
first_with-reason_string DecisionReason.quic_long_header = refl
first_with-reason_string DecisionReason.quic_short_header_matched = refl
first_with-reason_string DecisionReason.quic_short_header_constricted = refl
first_with-reason_string DecisionReason.quic_short_header_unknown_cid_fallback = refl
first_with-reason_string DecisionReason.quic_short_header_dcid_mismatch_fallback = refl
first_with-reason_string DecisionReason.quic_malformed_fallback = refl
