-- ===== src/Quic/Symmetry.antt =====
-- Both directions of a UDP flow share one canonical key.
use pcap_constrictor_win_pac.Base.{
  ℕ, zero, suc, ◌+◌, ◌≡◌, ◌≢◌, refl, ap, ◌∙◌, min, Bytes, get_or, arith,
}
use pcap_constrictor_win_pac.Decode.Types.{PacketDecodeResult}
use pcap_constrictor_win_pac.Quic.Flow.{
  Sign, less, equal, greater, compare_then, compare_bytes, compare_endpoints, source_endpoint,
  destination_endpoint, make_canonical_flow,
}
use pcap_constrictor_win_pac.Quic.Types.{Endpoint, FlowDirection, a_to_b, b_to_a}

abbrev opposite : Sign → Sign
opposite less = greater
opposite equal = equal
opposite greater = less

compare_then-opposite :
    (x y : ℕ) (r q : Sign) → q ≡ opposite r → compare_then y x q ≡ opposite (compare_then x y r)
compare_then-opposite x y r q e = ground arith

compare_bytes-opposite :
    (n i : ℕ) (xs ys : Bytes) (r q : Sign)
    → q ≡ opposite r
    → compare_bytes n i ys xs q ≡ opposite (compare_bytes n i xs ys r)
unfolding compare_bytes
compare_bytes-opposite zero i xs ys r q e = e
compare_bytes-opposite (suc n) i xs ys r q e =
    compare_then-opposite (get_or xs i 0) (get_or ys i 0) _ _
      (compare_bytes-opposite n (i + 1) xs ys r q e)

compare_endpoints-opposite :
    (x y : Endpoint) → compare_endpoints y x ≡ opposite (compare_endpoints x y)
unfolding compare_endpoints
compare_endpoints-opposite x y =
    ap (λ n. compare_bytes n 0 y.address x.address (lengths y x)) swap
    ∙ compare_bytes-opposite (min x.address_length y.address_length) 0 x.address y.address _ _ (
        compare_then-opposite x.address_length y.address_length _ _
          (compare_then-opposite x.port y.port _ _ refl))
  where
    lengths : Endpoint → Endpoint → Sign
    lengths u v = compare_then u.address_length v.address_length (compare_then u.port v.port equal)

    swap : min y.address_length x.address_length ≡ min x.address_length y.address_length
    swap = omega arith

-- The packet that goes the other way.
abbrev pub mirror : PacketDecodeResult → PacketDecodeResult
mirror d = record d {
  src_address = d.dst_address;
  dst_address = d.src_address;
  src_port = d.dst_port;
  dst_port = d.src_port;
}

abbrev pub turn : FlowDirection → FlowDirection
turn a_to_b = b_to_a
turn b_to_a = a_to_b

-- A packet and the one that answers it have the same canonical key and opposite directions,
-- unless their two endpoints compare as equal.
pub make_canonical_flow-mirror :
    (d : PacketDecodeResult)
    → compare_endpoints (source_endpoint d) (destination_endpoint d) ≢ equal
    → make_canonical_flow (mirror d) ≡ ((make_canonical_flow d).0, turn (make_canonical_flow d).1)
unfolding make_canonical_flow source_endpoint destination_endpoint
make_canonical_flow-mirror d differ =
    ground (arith, compare_endpoints-opposite (source_endpoint d) (destination_endpoint d))
