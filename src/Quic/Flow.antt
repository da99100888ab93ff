-- ===== src/Quic/Flow.antt =====
-- CompareEndpoints, MakeEndpoint and MakeCanonicalFlow of policy/QuicConstrictor.cpp.
use pcap_constrictor_win_pac.Base.{
  ℕ, zero, suc, ◌+◌, min, Bool, true, false, ltb, if◌then◌else◌, Bytes, get_or,
}
use pcap_constrictor_win_pac.Decode.Types.{PacketDecodeResult}
use pcap_constrictor_win_pac.Quic.Types.{Endpoint, FlowKey, FlowDirection, a_to_b, b_to_a}

-- The sign of CompareEndpoints: -1, 0, 1.
pub data Sign : Type 0 where
  less equal greater : Sign

-- The comparison of two numbers, and `rest` if they are the same.
abbrev pub compare_then : ℕ → ℕ → Sign → Sign
compare_then x y rest = if ltb x y then less else if ltb y x then greater else rest

-- The loop over the first `count` bytes of the addresses, from `index` on.
unfoldable pub compare_bytes : ℕ → ℕ → Bytes → Bytes → Sign → Sign
compare_bytes zero index left right rest = rest
compare_bytes (suc count) index left right rest =
    let later = compare_bytes count (index + 1) left right rest in
    compare_then (get_or left index 0) (get_or right index 0) later

unfoldable pub compare_endpoints : Endpoint → Endpoint → Sign
compare_endpoints left right =
    compare_bytes (min left.address_length right.address_length) 0 left.address right.address (
      compare_then left.address_length right.address_length
        (compare_then left.port right.port equal))

unfoldable pub make_endpoint : Bytes → ℕ → ℕ → Endpoint
make_endpoint address address_length port = record {
  address = address;
  address_length = address_length;
  port = port;
}

abbrev pub at_most : Sign → Bool
at_most greater = false
at_most _ = true

unfoldable pub source_endpoint : PacketDecodeResult → Endpoint
unfolding make_endpoint
source_endpoint decoded = make_endpoint decoded.src_address decoded.address_length decoded.src_port

unfoldable pub destination_endpoint : PacketDecodeResult → Endpoint
unfolding make_endpoint
destination_endpoint decoded =
    make_endpoint decoded.dst_address decoded.address_length decoded.dst_port

unfoldable pub make_canonical_flow : PacketDecodeResult → FlowKey × FlowDirection
make_canonical_flow decoded =
    let source = source_endpoint decoded in
    let destination = destination_endpoint decoded in
    if at_most (compare_endpoints source destination)
    then (
      record { ip_version = decoded.ip_version; endpoint_a = source; endpoint_b = destination },
      a_to_b,
    )
    else (
      record { ip_version = decoded.ip_version; endpoint_a = destination; endpoint_b = source },
      b_to_a,
    )
