-- ===== src/Decode/Network.antt =====
-- DecodeIpv4 and DecodeIpv6 of decode/PacketDecode.cpp.
use pcap_constrictor_win_pac.Base.{
  ℕ, ◌+◌, ◌*◌, ◌/◌, ◌%◌, Bool, true, not, ◌||◌, ltb, ◌==◌, if◌then◌else◌,
}
use pcap_constrictor_win_pac.Decode.Transport.{copy_address, decode_tcp, decode_udp}
use pcap_constrictor_win_pac.Decode.Types.{
  IpVersion, PacketDecodeFailureReason, PacketDecodeResult, fail,
}
use pcap_constrictor_win_pac.Span.{Span, byte_at, has_bytes, read_be16}

unfoldable pub is_unsupported_ipv6_extension : ℕ → Bool
is_unsupported_ipv6_extension next_header =
    next_header == 0
    || next_header == 43
    || next_header == 44
    || next_header == 51
    || next_header == 60
    || next_header == 135
    || next_header == 139
    || next_header == 140

-- The dispatch on the IP protocol number: TCP is 6, UDP is 17.
unfoldable pub decode_transport : PacketDecodeResult → Span → ℕ → ℕ → PacketDecodeResult
decode_transport r packet transport_offset transport_end =
    if r.ip_protocol == 6
    then decode_tcp r packet transport_offset transport_end
    else if r.ip_protocol == 17
    then decode_udp r packet transport_offset transport_end
    else r

-- The header length in bytes, from the low four bits.
unfoldable pub ipv4_ihl : Span → ℕ → ℕ
ipv4_ihl packet network_offset = byte_at packet network_offset % 16 * 4 % 256

-- More fragments to come, or a fragment that is not the first.
unfoldable pub is_fragment : Span → ℕ → Bool
is_fragment packet network_offset =
    let flags_fragment = read_be16 packet (network_offset + 6) in
    not (flags_fragment / 8192 % 2 == 0) || not (flags_fragment % 8192 == 0)

unfoldable pub set_ipv4 : PacketDecodeResult → Span → ℕ → PacketDecodeResult
set_ipv4 r packet network_offset = record r {
  success = true;
  ip_version = IpVersion.ipv4;
  network_header_offset = network_offset;
  network_header_length = ipv4_ihl packet network_offset;
  ip_protocol = byte_at packet (network_offset + 9);
  address_length = 4;
  src_address = copy_address packet (network_offset + 12) 4;
  dst_address = copy_address packet (network_offset + 16) 4;
}

unfoldable pub decode_ipv4 : PacketDecodeResult → Span → ℕ → PacketDecodeResult
unfolding set_ipv4
decode_ipv4 r packet network_offset =
    let version = byte_at packet network_offset / 16 in
    let ihl = ipv4_ihl packet network_offset in
    let total_length = read_be16 packet (network_offset + 2) in
    let decoded = set_ipv4 r packet network_offset in
    if not (has_bytes packet network_offset 20)
    then fail r PacketDecodeFailureReason.truncated_ipv4_header
    else if not (version == 4) || ltb ihl 20
    then fail r PacketDecodeFailureReason.invalid_ipv4_ihl
    else if not (has_bytes packet network_offset ihl)
    then fail r PacketDecodeFailureReason.truncated_ipv4_header
    else if ltb total_length ihl
    then fail r PacketDecodeFailureReason.invalid_ipv4_total_length
    else if not (has_bytes packet network_offset total_length)
    then fail r PacketDecodeFailureReason.truncated_ipv4_packet
    else if is_fragment packet network_offset
    then decoded
    else decode_transport decoded packet (network_offset + ihl) (network_offset + total_length)

unfoldable pub set_ipv6 : PacketDecodeResult → Span → ℕ → PacketDecodeResult
set_ipv6 r packet network_offset = record r {
  success = true;
  ip_version = IpVersion.ipv6;
  network_header_offset = network_offset;
  network_header_length = 40;
  ip_protocol = byte_at packet (network_offset + 6);
  address_length = 16;
  src_address = copy_address packet (network_offset + 8) 16;
  dst_address = copy_address packet (network_offset + 24) 16;
}

unfoldable pub decode_ipv6 : PacketDecodeResult → Span → ℕ → PacketDecodeResult
unfolding set_ipv6
decode_ipv6 r packet network_offset =
    let version = byte_at packet network_offset / 16 in
    let total_length = 40 + read_be16 packet (network_offset + 4) in
    let decoded = set_ipv6 r packet network_offset in
    if not (has_bytes packet network_offset 40)
    then fail r PacketDecodeFailureReason.truncated_ipv6_header
    else if not (version == 6)
    then fail r PacketDecodeFailureReason.truncated_ipv6_header
    else if not (has_bytes packet network_offset total_length)
    then fail r PacketDecodeFailureReason.truncated_ipv6_packet
    else if is_unsupported_ipv6_extension decoded.ip_protocol
    then fail decoded PacketDecodeFailureReason.unsupported_ipv6_extension_headers
    else decode_transport decoded packet (network_offset + 40) (network_offset + total_length)
