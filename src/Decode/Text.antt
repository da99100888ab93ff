-- ===== src/Decode/Text.antt =====
-- PacketDecodeResult::failure_reason_string of decode/PacketDecode.cpp.
use pcap_constrictor_win_pac.Base.{
  ◌≡◌, refl, Option, none, some, List, [], ◌∷◌, Bytes, bytes_beq, if◌then◌else◌,
}
use pcap_constrictor_win_pac.Decode.Types.{PacketDecodeFailureReason}

unfoldable pub failure_reason_string : PacketDecodeFailureReason → Bytes
failure_reason_string PacketDecodeFailureReason.none = b'n' ∷ b'o' ∷ b'n' ∷ b'e' ∷ []
failure_reason_string PacketDecodeFailureReason.truncated_null_header =
    b't' ∷ b'r' ∷ b'u' ∷ b'n' ∷ b'c' ∷ b'a' ∷ b't' ∷ b'e' ∷ b'd' ∷ b'_' ∷ b'n' ∷ b'u' ∷ b'l' ∷ b'l'
    ∷ b'_' ∷ b'h' ∷ b'e' ∷ b'a' ∷ b'd' ∷ b'e' ∷ b'r' ∷ []
failure_reason_string PacketDecodeFailureReason.unsupported_null_family =
    b'u' ∷ b'n' ∷ b's' ∷ b'u' ∷ b'p' ∷ b'p' ∷ b'o' ∷ b'r' ∷ b't' ∷ b'e' ∷ b'd' ∷ b'_' ∷ b'n' ∷ b'u'
    ∷ b'l' ∷ b'l' ∷ b'_' ∷ b'f' ∷ b'a' ∷ b'm' ∷ b'i' ∷ b'l' ∷ b'y' ∷ []
failure_reason_string PacketDecodeFailureReason.truncated_ethernet_header =
    b't' ∷ b'r' ∷ b'u' ∷ b'n' ∷ b'c' ∷ b'a' ∷ b't' ∷ b'e' ∷ b'd' ∷ b'_' ∷ b'e' ∷ b't' ∷ b'h' ∷ b'e'
    ∷ b'r' ∷ b'n' ∷ b'e' ∷ b't' ∷ b'_' ∷ b'h' ∷ b'e' ∷ b'a' ∷ b'd' ∷ b'e' ∷ b'r' ∷ []
failure_reason_string PacketDecodeFailureReason.truncated_vlan_tag =
    b't' ∷ b'r' ∷ b'u' ∷ b'n' ∷ b'c' ∷ b'a' ∷ b't' ∷ b'e' ∷ b'd' ∷ b'_' ∷ b'v' ∷ b'l' ∷ b'a' ∷ b'n'
    ∷ b'_' ∷ b't' ∷ b'a' ∷ b'g' ∷ []
failure_reason_string PacketDecodeFailureReason.truncated_ipv4_header =
    b't' ∷ b'r' ∷ b'u' ∷ b'n' ∷ b'c' ∷ b'a' ∷ b't' ∷ b'e' ∷ b'd' ∷ b'_' ∷ b'i' ∷ b'p' ∷ b'v' ∷ b'4'
    ∷ b'_' ∷ b'h' ∷ b'e' ∷ b'a' ∷ b'd' ∷ b'e' ∷ b'r' ∷ []
failure_reason_string PacketDecodeFailureReason.invalid_ipv4_ihl =
    b'i' ∷ b'n' ∷ b'v' ∷ b'a' ∷ b'l' ∷ b'i' ∷ b'd' ∷ b'_' ∷ b'i' ∷ b'p' ∷ b'v' ∷ b'4' ∷ b'_' ∷ b'i'
    ∷ b'h' ∷ b'l' ∷ []
failure_reason_string PacketDecodeFailureReason.invalid_ipv4_total_length =
    b'i' ∷ b'n' ∷ b'v' ∷ b'a' ∷ b'l' ∷ b'i' ∷ b'd' ∷ b'_' ∷ b'i' ∷ b'p' ∷ b'v' ∷ b'4' ∷ b'_' ∷ b't'
    ∷ b'o' ∷ b't' ∷ b'a' ∷ b'l' ∷ b'_' ∷ b'l' ∷ b'e' ∷ b'n' ∷ b'g' ∷ b't' ∷ b'h' ∷ []
failure_reason_string PacketDecodeFailureReason.truncated_ipv4_packet =
    b't' ∷ b'r' ∷ b'u' ∷ b'n' ∷ b'c' ∷ b'a' ∷ b't' ∷ b'e' ∷ b'd' ∷ b'_' ∷ b'i' ∷ b'p' ∷ b'v' ∷ b'4'
    ∷ b'_' ∷ b'p' ∷ b'a' ∷ b'c' ∷ b'k' ∷ b'e' ∷ b't' ∷ []
failure_reason_string PacketDecodeFailureReason.truncated_ipv6_header =
    b't' ∷ b'r' ∷ b'u' ∷ b'n' ∷ b'c' ∷ b'a' ∷ b't' ∷ b'e' ∷ b'd' ∷ b'_' ∷ b'i' ∷ b'p' ∷ b'v' ∷ b'6'
    ∷ b'_' ∷ b'h' ∷ b'e' ∷ b'a' ∷ b'd' ∷ b'e' ∷ b'r' ∷ []
failure_reason_string PacketDecodeFailureReason.truncated_ipv6_packet =
    b't' ∷ b'r' ∷ b'u' ∷ b'n' ∷ b'c' ∷ b'a' ∷ b't' ∷ b'e' ∷ b'd' ∷ b'_' ∷ b'i' ∷ b'p' ∷ b'v' ∷ b'6'
    ∷ b'_' ∷ b'p' ∷ b'a' ∷ b'c' ∷ b'k' ∷ b'e' ∷ b't' ∷ []
failure_reason_string PacketDecodeFailureReason.unsupported_ipv6_extension_headers =
    b'u' ∷ b'n' ∷ b's' ∷ b'u' ∷ b'p' ∷ b'p' ∷ b'o' ∷ b'r' ∷ b't' ∷ b'e' ∷ b'd' ∷ b'_' ∷ b'i' ∷ b'p'
    ∷ b'v' ∷ b'6' ∷ b'_' ∷ b'e' ∷ b'x' ∷ b't' ∷ b'e' ∷ b'n' ∷ b's' ∷ b'i' ∷ b'o' ∷ b'n' ∷ b'_'
    ∷ b'h' ∷ b'e' ∷ b'a' ∷ b'd' ∷ b'e' ∷ b'r' ∷ b's' ∷ []
failure_reason_string PacketDecodeFailureReason.truncated_tcp_header =
    b't' ∷ b'r' ∷ b'u' ∷ b'n' ∷ b'c' ∷ b'a' ∷ b't' ∷ b'e' ∷ b'd' ∷ b'_' ∷ b't' ∷ b'c' ∷ b'p' ∷ b'_'
    ∷ b'h' ∷ b'e' ∷ b'a' ∷ b'd' ∷ b'e' ∷ b'r' ∷ []
failure_reason_string PacketDecodeFailureReason.invalid_tcp_data_offset =
    b'i' ∷ b'n' ∷ b'v' ∷ b'a' ∷ b'l' ∷ b'i' ∷ b'd' ∷ b'_' ∷ b't' ∷ b'c' ∷ b'p' ∷ b'_' ∷ b'd' ∷ b'a'
    ∷ b't' ∷ b'a' ∷ b'_' ∷ b'o' ∷ b'f' ∷ b'f' ∷ b's' ∷ b'e' ∷ b't' ∷ []
failure_reason_string PacketDecodeFailureReason.truncated_udp_header =
    b't' ∷ b'r' ∷ b'u' ∷ b'n' ∷ b'c' ∷ b'a' ∷ b't' ∷ b'e' ∷ b'd' ∷ b'_' ∷ b'u' ∷ b'd' ∷ b'p' ∷ b'_'
    ∷ b'h' ∷ b'e' ∷ b'a' ∷ b'd' ∷ b'e' ∷ b'r' ∷ []
failure_reason_string PacketDecodeFailureReason.invalid_udp_length =
    b'i' ∷ b'n' ∷ b'v' ∷ b'a' ∷ b'l' ∷ b'i' ∷ b'd' ∷ b'_' ∷ b'u' ∷ b'd' ∷ b'p' ∷ b'_' ∷ b'l' ∷ b'e'
    ∷ b'n' ∷ b'g' ∷ b't' ∷ b'h' ∷ []
failure_reason_string PacketDecodeFailureReason.truncated_udp_payload =
    b't' ∷ b'r' ∷ b'u' ∷ b'n' ∷ b'c' ∷ b'a' ∷ b't' ∷ b'e' ∷ b'd' ∷ b'_' ∷ b'u' ∷ b'd' ∷ b'p' ∷ b'_'
    ∷ b'p' ∷ b'a' ∷ b'y' ∷ b'l' ∷ b'o' ∷ b'a' ∷ b'd' ∷ []

abbrev pub all_reasons : List PacketDecodeFailureReason
all_reasons =
    PacketDecodeFailureReason.none ∷ PacketDecodeFailureReason.truncated_null_header
    ∷ PacketDecodeFailureReason.unsupported_null_family
    ∷ PacketDecodeFailureReason.truncated_ethernet_header
    ∷ PacketDecodeFailureReason.truncated_vlan_tag ∷ PacketDecodeFailureReason.truncated_ipv4_header
    ∷ PacketDecodeFailureReason.invalid_ipv4_ihl
    ∷ PacketDecodeFailureReason.invalid_ipv4_total_length
    ∷ PacketDecodeFailureReason.truncated_ipv4_packet
    ∷ PacketDecodeFailureReason.truncated_ipv6_header
    ∷ PacketDecodeFailureReason.truncated_ipv6_packet
    ∷ PacketDecodeFailureReason.unsupported_ipv6_extension_headers
    ∷ PacketDecodeFailureReason.truncated_tcp_header
    ∷ PacketDecodeFailureReason.invalid_tcp_data_offset
    ∷ PacketDecodeFailureReason.truncated_udp_header ∷ PacketDecodeFailureReason.invalid_udp_length
    ∷ PacketDecodeFailureReason.truncated_udp_payload ∷ []

-- The first reason of the list with the text.
abbrev pub first_with : Bytes → List PacketDecodeFailureReason → Option PacketDecodeFailureReason
first_with text [] = none
first_with text (r ∷ rs) =
    if bytes_beq (failure_reason_string r) text then some r else first_with text rs

-- The text of a failure reason tells the reason: looking it up among the texts of all reasons
-- finds that reason first, so that no two reasons share a text.
pub first_with-failure_reason_string :
    (r : PacketDecodeFailureReason) → first_with (failure_reason_string r) all_reasons ≡ some r
unfolding failure_reason_string bytes_beq
first_with-failure_reason_string PacketDecodeFailureReason.none = refl
first_with-failure_reason_string PacketDecodeFailureReason.truncated_null_header = refl
first_with-failure_reason_string PacketDecodeFailureReason.unsupported_null_family = refl
first_with-failure_reason_string PacketDecodeFailureReason.truncated_ethernet_header = refl
first_with-failure_reason_string PacketDecodeFailureReason.truncated_vlan_tag = refl
first_with-failure_reason_string PacketDecodeFailureReason.truncated_ipv4_header = refl
first_with-failure_reason_string PacketDecodeFailureReason.invalid_ipv4_ihl = refl
first_with-failure_reason_string PacketDecodeFailureReason.invalid_ipv4_total_length = refl
first_with-failure_reason_string PacketDecodeFailureReason.truncated_ipv4_packet = refl
first_with-failure_reason_string PacketDecodeFailureReason.truncated_ipv6_header = refl
first_with-failure_reason_string PacketDecodeFailureReason.truncated_ipv6_packet = refl
first_with-failure_reason_string PacketDecodeFailureReason.unsupported_ipv6_extension_headers = refl
first_with-failure_reason_string PacketDecodeFailureReason.truncated_tcp_header = refl
first_with-failure_reason_string PacketDecodeFailureReason.invalid_tcp_data_offset = refl
first_with-failure_reason_string PacketDecodeFailureReason.truncated_udp_header = refl
first_with-failure_reason_string PacketDecodeFailureReason.invalid_udp_length = refl
first_with-failure_reason_string PacketDecodeFailureReason.truncated_udp_payload = refl
