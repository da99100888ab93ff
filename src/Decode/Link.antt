-- ===== src/Decode/Link.antt =====
-- DecodeNull and DecodePacket of decode/PacketDecode.cpp.
use pcap_constrictor_win_pac.Base.{
  ℕ, zero, suc, ◌+◌, ◌/◌, ◌%◌, Bool, true, not, ◌&&◌, ◌||◌, ◌==◌, if◌then◌else◌,
}
use pcap_constrictor_win_pac.Decode.Network.{decode_ipv4, decode_ipv6}
use pcap_constrictor_win_pac.Decode.Types.{
  IpVersion, PacketDecodeFailureReason, PacketDecodeResult, PcapLinkType, empty_result, fail,
  ip_version_beq, is_ip,
}
use pcap_constrictor_win_pac.Span.{Span, byte_at, has_bytes, read_be16, read_le32}

abbrev pub ethertype_ipv4 : ℕ
ethertype_ipv4 = 0x0800

abbrev pub ethertype_ipv6 : ℕ
ethertype_ipv6 = 0x86DD

unfoldable pub is_vlan_ethertype : ℕ → Bool
is_vlan_ethertype ether_type = ether_type == 0x8100 || ether_type == 0x88A8

-- The Windows address family of the loopback header: AF_INET is 2, AF_INET6 is 23.
unfoldable pub family_version : ℕ → IpVersion
family_version family =
    if family == 2 then IpVersion.ipv4 else if family == 23 then IpVersion.ipv6 else IpVersion.none

unfoldable pub nibble_version : Span → IpVersion
nibble_version packet =
    if has_bytes packet 4 1
    then (let version = byte_at packet 4 / 16 in
        if version == 4
        then IpVersion.ipv4
        else if version == 6
        then IpVersion.ipv6
        else IpVersion.none)
    else IpVersion.none

-- The ethertype that stands for an IP version, `before` for none.
abbrev pub version_ethertype : IpVersion → ℕ → ℕ
version_ethertype IpVersion.none before = before
version_ethertype IpVersion.ipv4 before = ethertype_ipv4
version_ethertype IpVersion.ipv6 before = ethertype_ipv6

-- The end of DecodeNull, on the version that the family or the first nibble gives.
abbrev pub decode_null_version : IpVersion → PacketDecodeResult → Span → PacketDecodeResult
decode_null_version IpVersion.ipv4 r packet =
    decode_ipv4 (record r { ethertype = ethertype_ipv4 }) packet 4
decode_null_version IpVersion.ipv6 r packet =
    decode_ipv6 (record r { ethertype = ethertype_ipv6 }) packet 4
decode_null_version IpVersion.none r packet =
    fail r PacketDecodeFailureReason.unsupported_null_family

-- The family and the first nibble must not contradict one another; the family comes first.
unfoldable pub decode_null_family :
    IpVersion → IpVersion → PacketDecodeResult → Span → PacketDecodeResult
decode_null_family by_family by_nibble r packet =
    if is_ip by_family && is_ip by_nibble && not (ip_version_beq by_family by_nibble)
    then fail r PacketDecodeFailureReason.unsupported_null_family
    else decode_null_version (if is_ip by_family then by_family else by_nibble) r packet

unfoldable pub start_null : PacketDecodeResult → IpVersion → PacketDecodeResult
start_null r by_family = record r {
  success = true;
  link_header_length = 4;
  network_header_offset = 4;
  ethertype = version_ethertype by_family r.ethertype;
}

unfoldable pub decode_null : PacketDecodeResult → Span → PacketDecodeResult
decode_null r packet =
    let by_family = family_version (read_le32 packet 0) in
    if not (has_bytes packet 0 4)
    then record r { failure_reason = PacketDecodeFailureReason.truncated_null_header }
    else decode_null_family by_family (nibble_version packet) (start_null r by_family) packet

-- Where the loop over the VLAN tags ends: at a network header, or in a tag that is cut off.
pub data VlanWalk : Type 0 where
  arrived : PacketDecodeResult → ℕ → VlanWalk
  stopped : PacketDecodeResult → VlanWalk

unfoldable pub truncated_tag : PacketDecodeResult → VlanWalk
truncated_tag r = stopped (fail r PacketDecodeFailureReason.truncated_vlan_tag)

-- The body of the loop.
unfoldable pub read_tag : Span → PacketDecodeResult → ℕ → PacketDecodeResult
read_tag packet r network_offset = record r {
  vlan_tag_count = (r.vlan_tag_count + 1) % 256;
  ethertype = read_be16 packet (network_offset + 2);
  link_header_length = r.link_header_length + 4;
}

-- The rounds are bounded by `fuel`. A tag takes four bytes, so one round for each byte is
-- enough: when none is left, no tag fits the packet either.
unfoldable pub vlan_loop : ℕ → Span → PacketDecodeResult → ℕ → VlanWalk
unfolding truncated_tag
vlan_loop zero packet r network_offset =
    if is_vlan_ethertype r.ethertype then truncated_tag r else arrived r network_offset
vlan_loop (suc fuel) packet r network_offset =
    let rest = vlan_loop fuel packet (read_tag packet r network_offset) (network_offset + 4) in
    if is_vlan_ethertype r.ethertype
    then (if has_bytes packet network_offset 4 then rest else truncated_tag r)
    else arrived r network_offset

unfoldable pub vlan_walk : Span → PacketDecodeResult → ℕ → VlanWalk
vlan_walk packet = vlan_loop packet.size packet

unfoldable pub decode_ethertype : VlanWalk → Span → PacketDecodeResult
decode_ethertype (stopped r) packet = r
decode_ethertype (arrived r network_offset) packet =
    if r.ethertype == ethertype_ipv4
    then decode_ipv4 r packet network_offset
    else if r.ethertype == ethertype_ipv6
    then decode_ipv6 r packet network_offset
    else r

unfoldable pub start_ethernet : Span → PacketDecodeResult
start_ethernet packet = record empty_result {
  success = true;
  link_header_length = 14;
  ethertype = read_be16 packet 12;
}

unfoldable pub decode_packet : Span → PcapLinkType → PacketDecodeResult
decode_packet packet PcapLinkType.null = decode_null empty_result packet
decode_packet packet PcapLinkType.ethernet =
    if not (has_bytes packet 0 14)
    then record empty_result {
      failure_reason = PacketDecodeFailureReason.truncated_ethernet_header;
    }
    else decode_ethertype (vlan_walk packet (start_ethernet packet) 14) packet
