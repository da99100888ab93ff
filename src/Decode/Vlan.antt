-- ===== src/Decode/Vlan.antt =====
-- The loop of DecodePacket over VLAN tags.
use pcap_constrictor_win_pac.Base.{
  ℕ, zero, suc, ◌+◌, ◌≤◌, ◌≡◌, ◌≢◌, ◌<◌, ◌*◌, ◌%◌, ◌⊎◌, inl, inr, Bool-cases, subst, false, arith,
}
use pcap_constrictor_win_pac.Decode.Link.{
  VlanWalk, stopped, arrived, is_vlan_ethertype, read_tag, truncated_tag, vlan_loop, vlan_walk,
}
use pcap_constrictor_win_pac.Decode.Types.{PacketDecodeResult, PacketDecodeFailureReason}
use pcap_constrictor_win_pac.Span.Locality.{has_bytes-true, has_bytes-false}
use pcap_constrictor_win_pac.Span.{Span, byte_at, read_be16, has_bytes}

-- The tag protocol identifiers of 802.1Q and 802.1ad.
abbrev pub IsTag : ℕ → Type 0
IsTag ethertype = (ethertype ≡ 0x8100) ⊎ (ethertype ≡ 0x88A8)

-- What a tag with these two bytes of the ethertype behind it leaves.
abbrev pub behind_tag : PacketDecodeResult → ℕ → ℕ → PacketDecodeResult
behind_tag r high low = record r {
  vlan_tag_count = (r.vlan_tag_count + 1) % 256;
  ethertype = high * 256 + low;
  link_header_length = r.link_header_length + 4;
}

-- The tags of a packet, one behind the other from an offset on, and what comes of them.
pub data Walks (packet : Span) : PacketDecodeResult → ℕ → VlanWalk → Type 0 where
  at_network :
      {r : PacketDecodeResult} {offset : ℕ}
      → r.ethertype ≢ 0x8100
      → r.ethertype ≢ 0x88A8
      → Walks packet r offset (arrived r offset)
  cut_off :
      {r : PacketDecodeResult} {offset : ℕ}
      → IsTag r.ethertype
      → packet.size < offset + 4
      → Walks packet r offset (
          stopped (record r {
            success = false;
            failure_reason = PacketDecodeFailureReason.truncated_vlan_tag;
          }))
  tag :
      {r : PacketDecodeResult} {offset : ℕ} {w : VlanWalk}
      → IsTag r.ethertype
      → offset + 4 ≤ packet.size
      → Walks packet
          (behind_tag r (byte_at packet (offset + 2)) (byte_at packet (offset + 3)))
          (offset + 4)
          w
      → Walks packet r offset w

module _ (packet : Span) where
  -- Each tag adds four bytes to the link header, whose length is the offset of what follows.
  pub vlan_loop_offset :
      (fuel : ℕ) (r : PacketDecodeResult) (offset : ℕ) {q : PacketDecodeResult} {end : ℕ}
      → vlan_loop fuel packet r offset ≡ arrived q end
      → r.link_header_length ≡ offset
      → offset ≤ packet.size
      → (q.link_header_length ≡ end) × (end ≤ packet.size) × (is_vlan_ethertype q.ethertype ≡ false)
  unfolding vlan_loop truncated_tag read_tag
  vlan_loop_offset zero r offset e h k = ground arith
  vlan_loop_offset (suc fuel) r offset {q} {end} e h k = ground (
    arith,
    has_bytes-true packet offset 4,
    vlan_loop_offset fuel (read_tag packet r offset) (offset + 4) {q = q} {end = end},
  )

  read_tag-Walks :
      (r : PacketDecodeResult) (offset : ℕ) {w : VlanWalk}
      → IsTag r.ethertype
      → offset + 4 ≤ packet.size
      → Walks packet (read_tag packet r offset) (offset + 4) w
      → Walks packet r offset w
  unfolding read_tag read_be16
  read_tag-Walks r offset {w} t inside walk = tag {r = r} t inside (
      subst
        (λ i.
          Walks packet (behind_tag r (byte_at packet (offset + 2)) (byte_at packet i)) (offset + 4)
            w)
        (omega arith) walk)

  vlan_loop-Walks :
      (fuel : ℕ) (r : PacketDecodeResult) (offset : ℕ)
      → packet.size ≤ offset + fuel
      → Walks packet r offset (vlan_loop fuel packet r offset)
  unfolding vlan_loop is_vlan_ethertype truncated_tag
  vlan_loop-Walks zero r offset enough = elim (Bool-cases (is_vlan_ethertype r.ethertype)) [
    | inl e ↦ rw e (cut_off (ground arith) (omega arith))
    | inr e ↦ rw e (at_network (ground arith) (ground arith))
  ]
  vlan_loop-Walks (suc fuel) r offset enough = elim (Bool-cases (is_vlan_ethertype r.ethertype)) [
    | inl e ↦ rw e (elim (Bool-cases (has_bytes packet offset 4)) [
      | inl fits ↦ rw fits (
          read_tag-Walks r offset (ground arith) (has_bytes-true packet offset 4 fits)
            (vlan_loop-Walks fuel (read_tag packet r offset) (offset + 4) (omega arith)))
      | inr short ↦ rw short (cut_off (ground arith) (has_bytes-false packet offset 4 short))
    ])
    | inr e ↦ rw e (at_network (ground arith) (ground arith))
  ]

  -- From every state and offset the walk over VLAN tags ends as the bytes there say: it passes the
  -- tags 0x8100 and 0x88A8 that are whole, each with the ethertype behind it, a count and four
  -- bytes of header, and arrives at the first other ethertype, or stops with the truncation error
  -- at a tag that is cut off.
  pub vlan_walk-Walks :
      (r : PacketDecodeResult) (offset : ℕ) → Walks packet r offset (vlan_walk packet r offset)
  unfolding vlan_walk
  vlan_walk-Walks r offset = vlan_loop-Walks packet.size r offset (omega arith)
