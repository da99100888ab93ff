-- ===== src/Decode/Types.antt =====
-- The types of decode/PacketDecode.hpp and capture/PcapLinkType.hpp.
use pcap_constrictor_win_pac.Base.{ℕ, Bool, true, false, ◌&&◌, not, Bytes, replicate}

pub data PcapLinkType : Type 0 where
  null ethernet : PcapLinkType

pub data IpVersion : Type 0 where
  none ipv4 ipv6 : IpVersion

pub data TransportProtocol : Type 0 where
  none tcp udp : TransportProtocol

pub data PacketDecodeFailureReason : Type 0 where
  none : PacketDecodeFailureReason
  truncated_null_header unsupported_null_family : PacketDecodeFailureReason
  truncated_ethernet_header truncated_vlan_tag : PacketDecodeFailureReason
  truncated_ipv4_header invalid_ipv4_ihl : PacketDecodeFailureReason
  invalid_ipv4_total_length truncated_ipv4_packet : PacketDecodeFailureReason
  truncated_ipv6_header truncated_ipv6_packet : PacketDecodeFailureReason
  unsupported_ipv6_extension_headers : PacketDecodeFailureReason
  truncated_tcp_header invalid_tcp_data_offset : PacketDecodeFailureReason
  truncated_udp_header invalid_udp_length truncated_udp_payload : PacketDecodeFailureReason

pub record PacketDecodeResult : Type 0 where
  pub success : Bool
  pub failure_reason : PacketDecodeFailureReason
  pub ethertype : ℕ
  pub vlan_tag_count : ℕ
  pub ip_version : IpVersion
  pub transport_protocol : TransportProtocol
  pub ip_protocol : ℕ
  pub link_header_length : ℕ
  pub network_header_offset : ℕ
  pub network_header_length : ℕ
  pub transport_header_offset : ℕ
  pub transport_header_length : ℕ
  pub transport_payload_offset : ℕ
  pub transport_payload_length : ℕ
  pub src_port : ℕ
  pub dst_port : ℕ
  pub tcp_seq : ℕ
  pub tcp_flags : ℕ
  pub src_address : Bytes
  pub dst_address : Bytes
  pub address_length : ℕ

-- A value-initialised result, `PacketDecodeResult result;`.
abbrev pub empty_result : PacketDecodeResult
empty_result = record {
  success = false;
  failure_reason = PacketDecodeFailureReason.none;
  ethertype = 0;
  vlan_tag_count = 0;
  ip_version = IpVersion.none;
  transport_protocol = TransportProtocol.none;
  ip_protocol = 0;
  link_header_length = 0;
  network_header_offset = 0;
  network_header_length = 0;
  transport_header_offset = 0;
  transport_header_length = 0;
  transport_payload_offset = 0;
  transport_payload_length = 0;
  src_port = 0;
  dst_port = 0;
  tcp_seq = 0;
  tcp_flags = 0;
  src_address = replicate 16 0;
  dst_address = replicate 16 0;
  address_length = 0;
}

abbrev pub fail : PacketDecodeResult → PacketDecodeFailureReason → PacketDecodeResult
fail r why = record r { success = false; failure_reason = why }

-- The `==` of the enumerations.
abbrev pub is_ip : IpVersion → Bool
is_ip IpVersion.none = false
is_ip IpVersion.ipv4 = true
is_ip IpVersion.ipv6 = true

abbrev pub ip_version_beq : IpVersion → IpVersion → Bool
ip_version_beq IpVersion.none IpVersion.none = true
ip_version_beq IpVersion.ipv4 IpVersion.ipv4 = true
ip_version_beq IpVersion.ipv6 IpVersion.ipv6 = true
ip_version_beq _ _ = false

abbrev pub is_tcp : TransportProtocol → Bool
is_tcp TransportProtocol.tcp = true
is_tcp _ = false

abbrev pub is_udp : TransportProtocol → Bool
is_udp TransportProtocol.udp = true
is_udp _ = false

abbrev pub is_transport : TransportProtocol → Bool
is_transport TransportProtocol.none = false
is_transport _ = true

abbrev pub no_failure : PacketDecodeFailureReason → Bool
no_failure PacketDecodeFailureReason.none = true
no_failure _ = false

unfoldable pub parsed_ip : PacketDecodeResult → Bool
parsed_ip r = r.success && is_ip r.ip_version

unfoldable pub parsed_transport : PacketDecodeResult → Bool
parsed_transport r = r.success && is_transport r.transport_protocol

unfoldable pub is_non_ip : PacketDecodeResult → Bool
is_non_ip r = r.success && not (is_ip r.ip_version)
