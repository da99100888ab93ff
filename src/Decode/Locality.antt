-- ===== src/Decode/Locality.antt =====
-- DecodePacket reads in range: what lies behind the packet in memory does not change its result.
use pcap_constrictor_win_pac.Base.{
  ℕ, zero, suc, ◌+◌, ◌≤◌, ◌≡◌, refl, inl, inr, arith, Bool-cases, ap, ◌++◌, ◌∙◌, replicate, ◌-◌,
}
use pcap_constrictor_win_pac.Decode.Link.{
  VlanWalk, arrived, stopped, decode_null_version, decode_null_family, decode_null, nibble_version,
  read_tag, vlan_loop, vlan_walk, decode_ethertype, start_ethernet, decode_packet,
}
use pcap_constrictor_win_pac.Decode.Network.{
  decode_transport, decode_ipv4, decode_ipv6, set_ipv4, set_ipv6, ipv4_ihl, is_fragment,
}
use pcap_constrictor_win_pac.Decode.Transport.{
  copy_address, decode_tcp, decode_udp, tcp_header_length,
}
use pcap_constrictor_win_pac.Decode.Types.{
  IpVersion, PacketDecodeResult, PcapLinkType, empty_result,
}
use pcap_constrictor_win_pac.Span.Locality.{
  Agree, has_bytes-true, byte_at-Agree, has_bytes-Agree, read_be16-Agree, read_be32-Agree,
  read_le32-Agree, copy_bytes-Agree,
}
use pcap_constrictor_win_pac.Span.{Span, has_bytes, read_be16}

module _ {s t : Span} (a : Agree s t) where
  module _ (r : PacketDecodeResult) (offset end : ℕ) where
    decode_tcp-Agree : decode_tcp r s offset end ≡ decode_tcp r t offset end
    unfolding decode_tcp tcp_header_length
    decode_tcp-Agree = ground (
      arith,
      has_bytes-true s offset 20,
      has_bytes-Agree a offset 20,
      byte_at-Agree a (offset + 12),
      byte_at-Agree a (offset + 13),
      has_bytes-Agree a offset (tcp_header_length s offset),
      read_be16-Agree a offset,
      read_be16-Agree a (offset + 2),
      read_be32-Agree a (offset + 4),
    )

    decode_udp-Agree : decode_udp r s offset end ≡ decode_udp r t offset end
    unfolding decode_udp
    decode_udp-Agree = ground (
      arith,
      has_bytes-true s offset 8,
      has_bytes-Agree a offset 8,
      read_be16-Agree a offset,
      read_be16-Agree a (offset + 2),
      read_be16-Agree a (offset + 4),
    )

    decode_transport-Agree : decode_transport r s offset end ≡ decode_transport r t offset end
    unfolding decode_transport
    decode_transport-Agree = rw (decode_tcp-Agree, decode_udp-Agree)

  copy_address-Agree :
      (offset n : ℕ) → offset + n ≤ s.size → copy_address s offset n ≡ copy_address t offset n
  unfolding copy_address
  copy_address-Agree offset n h =
      ap (λ xs. xs ++ replicate (16 - n) 0) (copy_bytes-Agree a offset n h)

  module _ (r : PacketDecodeResult) (offset : ℕ) where
    set_ipv4-Agree : offset + 20 ≤ s.size → set_ipv4 r s offset ≡ set_ipv4 r t offset
    unfolding set_ipv4 ipv4_ihl
    set_ipv4-Agree h = rw (
      byte_at-Agree a offset (omega arith),
      byte_at-Agree a (offset + 9) (omega arith),
      copy_address-Agree (offset + 12) 4 (omega arith),
      copy_address-Agree (offset + 16) 4 (omega arith),
    )

    set_ipv6-Agree : offset + 40 ≤ s.size → set_ipv6 r s offset ≡ set_ipv6 r t offset
    unfolding set_ipv6
    set_ipv6-Agree h = rw (
      byte_at-Agree a (offset + 6) (omega arith),
      copy_address-Agree (offset + 8) 16 (omega arith),
      copy_address-Agree (offset + 24) 16 (omega arith),
    )

    decode_ipv4-Agree : decode_ipv4 r s offset ≡ decode_ipv4 r t offset
    unfolding decode_ipv4 ipv4_ihl is_fragment
    decode_ipv4-Agree = ground (
      arith,
      has_bytes-true s offset 20,
      has_bytes-Agree a offset 20,
      byte_at-Agree a offset,
      read_be16-Agree a (offset + 2),
      read_be16-Agree a (offset + 6),
      has_bytes-Agree a offset (ipv4_ihl s offset),
      has_bytes-Agree a offset (read_be16 s (offset + 2)),
      set_ipv4-Agree,
      decode_transport-Agree (set_ipv4 r s offset) (offset + ipv4_ihl s offset)
          (offset + read_be16 s (offset + 2)),
    )

    decode_ipv6-Agree : decode_ipv6 r s offset ≡ decode_ipv6 r t offset
    unfolding decode_ipv6
    decode_ipv6-Agree = ground (
      arith,
      has_bytes-true s offset 40,
      has_bytes-Agree a offset 40,
      byte_at-Agree a offset,
      read_be16-Agree a (offset + 4),
      has_bytes-Agree a offset (40 + read_be16 s (offset + 4)),
      set_ipv6-Agree,
      decode_transport-Agree (set_ipv6 r s offset) (offset + 40)
          (offset + (40 + read_be16 s (offset + 4))),
    )

  decode_null_version-Agree :
      (v : IpVersion) (r : PacketDecodeResult)
      → decode_null_version v r s ≡ decode_null_version v r t
  decode_null_version-Agree IpVersion.none r = refl
  decode_null_version-Agree IpVersion.ipv4 r = decode_ipv4-Agree _ 4
  decode_null_version-Agree IpVersion.ipv6 r = decode_ipv6-Agree _ 4

  nibble_version-Agree : nibble_version s ≡ nibble_version t
  unfolding nibble_version
  nibble_version-Agree =
      ground (arith, has_bytes-true s 4 1, has_bytes-Agree a 4 1, byte_at-Agree a 4)

  decode_null_family-Agree :
      (v w : IpVersion) (r : PacketDecodeResult)
      → decode_null_family v w r s ≡ decode_null_family v w r t
  unfolding decode_null_family
  decode_null_family-Agree v w r = rw decode_null_version-Agree

  decode_null-Agree : (r : PacketDecodeResult) → decode_null r s ≡ decode_null r t
  unfolding decode_null
  decode_null-Agree r = elim (Bool-cases (has_bytes s 0 4)) [
    | inl long ↦
        rw
          (
            ← has_bytes-Agree a 0 4,
            long,
            read_le32-Agree a 0 (has_bytes-true s 0 4 long),
            nibble_version-Agree,
          )
          (decode_null_family-Agree _ _ _)
    | inr short ↦ rw (← has_bytes-Agree a 0 4, short)
  ]

  vlan_loop-Agree :
      (fuel : ℕ) (r : PacketDecodeResult) (offset : ℕ)
      → vlan_loop fuel s r offset ≡ vlan_loop fuel t r offset
  unfolding vlan_loop read_tag
  vlan_loop-Agree zero r offset = refl
  vlan_loop-Agree (suc fuel) r offset = ground (
    arith,
    has_bytes-true s offset 4,
    has_bytes-Agree a offset 4,
    read_be16-Agree a (offset + 2),
    vlan_loop-Agree fuel (read_tag s r offset) (offset + 4),
  )

  vlan_walk-Agree :
      (r : PacketDecodeResult) (offset : ℕ) → vlan_walk s r offset ≡ vlan_walk t r offset
  unfolding vlan_walk
  vlan_walk-Agree r offset =
      vlan_loop-Agree s.size r offset ∙ ap (λ fuel. vlan_loop fuel t r offset) a.same_size

  decode_ethertype-Agree : (w : VlanWalk) → decode_ethertype w s ≡ decode_ethertype w t
  unfolding decode_ethertype
  decode_ethertype-Agree (stopped r) = refl
  decode_ethertype-Agree (arrived r offset) =
      rw (decode_ipv4-Agree r offset, decode_ipv6-Agree r offset)

  decode_ethernet-Agree :
      decode_packet s PcapLinkType.ethernet ≡ decode_packet t PcapLinkType.ethernet
  unfolding decode_packet start_ethernet
  decode_ethernet-Agree = elim (Bool-cases (has_bytes s 0 14)) [
    | inl long ↦
        rw
          (
            ← has_bytes-Agree a 0 14,
            long,
            read_be16-Agree a 12 (has_bytes-true s 0 14 long),
            vlan_walk-Agree,
          )
          (decode_ethertype-Agree _)
    | inr short ↦ rw (← has_bytes-Agree a 0 14, short)
  ]

-- DecodePacket reads no byte outside the packet: for two memories that agree on the bytes of the
-- packet, and hold anything behind it, the results are equal, for every link type.
pub decode_packet-Agree :
    {s t : Span} (l : PcapLinkType) → Agree s t → decode_packet s l ≡ decode_packet t l
unfolding decode_packet
decode_packet-Agree PcapLinkType.null a = decode_null-Agree a empty_result
decode_packet-Agree PcapLinkType.ethernet a = decode_ethernet-Agree a
