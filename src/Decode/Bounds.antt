-- ===== src/Decode/Bounds.antt =====
-- What every result of DecodePacket satisfies, on success and on failure: the two failure flags
-- agree, the headers lie in order, and the transport payload lies inside the packet.
use pcap_constrictor_win_pac.Base.{
  ℕ, zero, suc, ◌+◌, ◌≤◌, ◌≡◌, true, inl, inr, arith, if◌then◌else◌, Bool-cases,
}
use pcap_constrictor_win_pac.Decode.Link.{
  VlanWalk, arrived, stopped, decode_null_version, decode_null_family, start_null, decode_null,
  read_tag, vlan_loop, vlan_walk, decode_ethertype, start_ethernet, decode_packet,
}
use pcap_constrictor_win_pac.Decode.Network.{
  decode_transport, decode_ipv4, decode_ipv6, set_ipv4, set_ipv6, ipv4_ihl,
}
use pcap_constrictor_win_pac.Decode.Transport.{decode_tcp, decode_udp}
use pcap_constrictor_win_pac.Decode.Types.{
  IpVersion, PacketDecodeFailureReason, PacketDecodeResult, PcapLinkType, TransportProtocol,
  no_failure, is_transport, is_tcp, is_ip, empty_result,
}
use pcap_constrictor_win_pac.Span.Locality.{has_bytes-true}
use pcap_constrictor_win_pac.Span.{Span, has_bytes, read_be16}

pub record IsSound (packet : Span) (r : PacketDecodeResult) : Type 0 where
  pub flags_agree : r.success ≡ no_failure r.failure_reason
  pub payload_fits : r.transport_payload_offset + r.transport_payload_length ≤ packet.size
  pub headers_join :
      is_transport r.transport_protocol ≡ true
      → r.transport_header_offset + r.transport_header_length ≡ r.transport_payload_offset
  pub headers_ordered :
      is_transport r.transport_protocol ≡ true
      → r.network_header_offset + r.network_header_length ≤ r.transport_header_offset
  pub transport_in_ip :
      is_transport r.transport_protocol ≡ true → (r.success ≡ true) × (is_ip r.ip_version ≡ true)
  pub tcp_header_min : is_tcp r.transport_protocol ≡ true → 20 ≤ r.transport_header_length

-- No transport header has been read.
pub record IsFresh (r : PacketDecodeResult) : Type 0 where
  pub no_transport : r.transport_protocol ≡ TransportProtocol.none
  pub no_offset : r.transport_payload_offset ≡ 0
  pub no_length : r.transport_payload_length ≡ 0
  pub succeeded : r.success ≡ true
  pub no_reason : r.failure_reason ≡ PacketDecodeFailureReason.none

-- What DecodeIpv4 and DecodeIpv6 hand to the transport decoders.
pub record IsNetwork (r : PacketDecodeResult) (transport_offset : ℕ) : Type 0 where
  pub fresh : IsFresh r
  pub has_ip : is_ip r.ip_version ≡ true
  pub before_transport : r.network_header_offset + r.network_header_length ≤ transport_offset

module _ (packet : Span) (r : PacketDecodeResult) where
  IsFresh-IsSound : IsFresh r → IsSound packet r
  IsFresh-IsSound f = ground arith

  module _ (offset end : ℕ) where
    decode_tcp-IsSound :
        IsNetwork r offset → end ≤ packet.size → IsSound packet (decode_tcp r packet offset end)
    unfolding decode_tcp
    decode_tcp-IsSound n h = ground arith

    decode_udp-IsSound :
        IsNetwork r offset → end ≤ packet.size → IsSound packet (decode_udp r packet offset end)
    unfolding decode_udp
    decode_udp-IsSound n h = ground arith

    decode_transport-IsSound :
        IsNetwork r offset
        → end ≤ packet.size
        → IsSound packet (decode_transport r packet offset end)
    unfolding decode_transport
    decode_transport-IsSound n h =
        ground (arith, decode_tcp-IsSound n h, decode_udp-IsSound n h, IsFresh-IsSound n.fresh)

module _ (packet : Span) (r : PacketDecodeResult) (network_offset : ℕ) (f : IsFresh r) where
  set_ipv4-IsNetwork :
      IsNetwork (set_ipv4 r packet network_offset) (network_offset + ipv4_ihl packet network_offset)
  unfolding set_ipv4
  set_ipv4-IsNetwork = ground arith

  set_ipv6-IsNetwork : IsNetwork (set_ipv6 r packet network_offset) (network_offset + 40)
  unfolding set_ipv6
  set_ipv6-IsNetwork = ground arith

  decode_ipv4-IsSound : IsSound packet (decode_ipv4 r packet network_offset)
  unfolding decode_ipv4
  decode_ipv4-IsSound = ground (
    arith,
    IsFresh-IsSound packet r f,
    has_bytes-true packet network_offset (read_be16 packet (network_offset + 2)),
    decode_transport-IsSound packet (set_ipv4 r packet network_offset)
        (network_offset + ipv4_ihl packet network_offset)
        (network_offset + read_be16 packet (network_offset + 2)) set_ipv4-IsNetwork,
  )

  decode_ipv6-IsSound : IsSound packet (decode_ipv6 r packet network_offset)
  unfolding decode_ipv6
  decode_ipv6-IsSound = ground (
    arith,
    IsFresh-IsSound packet r f,
    has_bytes-true packet network_offset (40 + read_be16 packet (network_offset + 4)),
    decode_transport-IsSound packet (set_ipv6 r packet network_offset) (network_offset + 40)
        (network_offset + (40 + read_be16 packet (network_offset + 4))) set_ipv6-IsNetwork,
  )

module _ (packet : Span) where
  decode_null_version-IsSound :
      (v : IpVersion) (r : PacketDecodeResult)
      → IsFresh r
      → IsSound packet (decode_null_version v r packet)
  decode_null_version-IsSound IpVersion.none r f = ground arith
  decode_null_version-IsSound IpVersion.ipv4 r f = decode_ipv4-IsSound packet _ 4 (ground arith)
  decode_null_version-IsSound IpVersion.ipv6 r f = decode_ipv6-IsSound packet _ 4 (ground arith)

  decode_null_family-IsSound :
      (v w : IpVersion) (r : PacketDecodeResult)
      → IsFresh r
      → IsSound packet (decode_null_family v w r packet)
  unfolding decode_null_family
  decode_null_family-IsSound v w r f =
      ground (arith, decode_null_version-IsSound (if is_ip v then v else w) r f)

  -- The VLAN tags leave the transport fields alone.
  abbrev IsFreshWalk : VlanWalk → Type 0
  IsFreshWalk (arrived r offset) = IsFresh r
  IsFreshWalk (stopped r) = IsSound packet r

  vlan_loop-IsFreshWalk :
      (fuel : ℕ) (r : PacketDecodeResult) (offset : ℕ)
      → IsFresh r
      → IsFreshWalk (vlan_loop fuel packet r offset)
  unfolding vlan_loop read_tag
  vlan_loop-IsFreshWalk zero r offset f = ground arith
  vlan_loop-IsFreshWalk (suc fuel) r offset f =
      ground (arith, vlan_loop-IsFreshWalk fuel (read_tag packet r offset) (offset + 4))

  decode_ethertype-IsSound :
      (w : VlanWalk) → IsFreshWalk w → IsSound packet (decode_ethertype w packet)
  unfolding decode_ethertype
  decode_ethertype-IsSound (stopped r) s = s
  decode_ethertype-IsSound (arrived r offset) f = ground (
    arith,
    IsFresh-IsSound packet r f,
    decode_ipv4-IsSound packet r offset f,
    decode_ipv6-IsSound packet r offset f,
  )

  decode_null-IsSound : IsSound packet (decode_null empty_result packet)
  unfolding decode_null
  decode_null-IsSound = elim (Bool-cases (has_bytes packet 0 4)) [
    | inl long ↦ rw long (decode_null_family-IsSound _ _ _ (unfold start_null in ground arith))
    | inr short ↦ rw short (ground arith)
  ]

  -- The result of DecodePacket is sound for every packet and link type: `success` says that there
  -- is no failure reason, the payload range lies inside the packet, and a transport header that was
  -- read follows an IP header, with the payload directly behind it; a TCP header has at least 20
  -- bytes.
  pub decode_packet-IsSound : (l : PcapLinkType) → IsSound packet (decode_packet packet l)
  unfolding decode_packet start_ethernet vlan_walk
  decode_packet-IsSound PcapLinkType.null = decode_null-IsSound
  decode_packet-IsSound PcapLinkType.ethernet = ground (
    arith,
    vlan_loop-IsFreshWalk packet.size (start_ethernet packet) 14,
    decode_ethertype-IsSound (vlan_walk packet (start_ethernet packet) 14),
  )
