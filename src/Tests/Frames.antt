-- ===== src/Tests/Frames.antt =====
-- DecodePacket and LiveCapturePolicy on the frame with a TLS record.
use pcap_constrictor_win_pac.Base.{
  ℕ, ◌<◌, ◌≤◌, ◌≡◌, refl, [], ◌∷◌, arith, get_or, length, zero, suc, ap, Bytes, ◌%◌,
}
use pcap_constrictor_win_pac.Decode.Bounds as DecodeBounds
use pcap_constrictor_win_pac.Decode.Link.{
  decode_packet, vlan_walk, vlan_loop, is_vlan_ethertype, decode_ethertype, start_ethernet,
}
use pcap_constrictor_win_pac.Decode.Locality.{decode_packet-Agree}
use pcap_constrictor_win_pac.Decode.Network.{
  decode_ipv4, ipv4_ihl, is_fragment, decode_transport, set_ipv4,
}
use pcap_constrictor_win_pac.Decode.Transport.{decode_tcp, tcp_header_length, copy_address}
use pcap_constrictor_win_pac.Decode.Types.{PacketDecodeResult, empty_result, ethernet}
use pcap_constrictor_win_pac.Decode.Vlan.{Walks, vlan_walk-Walks}
use pcap_constrictor_win_pac.Policy.Bounds.{IsSound, evaluate-IsSound, evaluate_fits}
use pcap_constrictor_win_pac.Policy.Decide.{evaluate, baseline_len}
use pcap_constrictor_win_pac.Policy.Locality.{in_memory, evaluate-in_memory}
use pcap_constrictor_win_pac.Policy.Packet.{safe_captured_len}
use pcap_constrictor_win_pac.Span.Locality.{Agree}
use pcap_constrictor_win_pac.Span.{
  Span, of_list, has_bytes, byte_at, read_be16, read_be32, copy_bytes,
}
use pcap_constrictor_win_pac.Tests.Samples.{
  tls_frame, tls_span, tls_decoded, captured, fresh_policy,
}

tls_frame_decoded : decode_packet tls_span ethernet ≡ tls_decoded
unfolding decode_packet has_bytes of_list decode_ethertype vlan_walk vlan_loop is_vlan_ethertype
    start_ethernet read_be16 byte_at decode_ipv4 ipv4_ihl is_fragment decode_transport decode_tcp
    tcp_header_length read_be32 copy_address copy_bytes set_ipv4
tls_frame_decoded = refl

decode_packet-IsSound_example : DecodeBounds.IsSound tls_span (decode_packet tls_span ethernet)
decode_packet-IsSound_example = DecodeBounds.decode_packet-IsSound tls_span ethernet

abbrev other_memory : Span
other_memory = record { memory = λ i. get_or tls_frame i 99; size = 67 }

get_or-inside : (xs : Bytes) (i d e : ℕ) → i < length xs → get_or xs i d ≡ get_or xs i e
get_or-inside [] i d e h = elim h [ ]
get_or-inside (x ∷ xs) zero d e h = refl
get_or-inside (x ∷ xs) (suc i) d e h = get_or-inside xs i d e (omega arith)

same_packet : Agree tls_span other_memory
unfolding of_list byte_at
same_packet = record {
  same_size = refl;
  same_bytes = λ i h. ap (λ b. b % 256) (get_or-inside tls_frame i 0 99 h);
}

decode_packet-Agree_example : decode_packet tls_span ethernet ≡ decode_packet other_memory ethernet
decode_packet-Agree_example = decode_packet-Agree ethernet same_packet

-- A tag, and IPv4 behind it.
abbrev tagged : Span
tagged = of_list (0 ∷ 5 ∷ 8 ∷ 0 ∷ 0x45 ∷ [])

abbrev at_tag : PacketDecodeResult
at_tag = record empty_result { ethertype = 0x8100 }

vlan_walk-Walks_example : Walks tagged at_tag 0 (vlan_walk tagged at_tag 0)
vlan_walk-Walks_example = vlan_walk-Walks tagged at_tag 0

evaluate-IsSound_example :
    IsSound fresh_policy.config
      (baseline_len fresh_policy.config (captured tls_frame))
      (evaluate fresh_policy (captured tls_frame)).1.decode
      (evaluate fresh_policy (captured tls_frame)).1.output_len
      (evaluate fresh_policy (captured tls_frame)).1.reason
evaluate-IsSound_example = evaluate-IsSound fresh_policy (captured tls_frame)

evaluate_fits_example :
    let d = (evaluate fresh_policy (captured tls_frame)).1 in
    (d.output_len ≤ safe_captured_len (captured tls_frame).packet)
    × (d.output_len ≤ 67)
    × (d.output_len ≤ 65535)
    × (d.output_len ≤ 65535)
    × (d.output_len ≤ d.original_len)
evaluate_fits_example = evaluate_fits fresh_policy (captured tls_frame)

-- The captured frame with other bytes behind it.
same_bytes_captured :
    (i : ℕ)
    → i < safe_captured_len (captured tls_frame).packet
    → byte_at (captured tls_frame).packet.view_data i ≡ other_memory.memory i % 256
unfolding safe_captured_len of_list byte_at
same_bytes_captured i h = ap (λ b. b % 256) (get_or-inside tls_frame i 0 99 h)

evaluate-in_memory_example :
    evaluate fresh_policy (captured tls_frame)
    ≡ evaluate fresh_policy (in_memory (captured tls_frame) other_memory.memory)
evaluate-in_memory_example =
    evaluate-in_memory (captured tls_frame) other_memory.memory same_bytes_captured fresh_policy
