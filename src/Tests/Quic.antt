-- ===== src/Tests/Quic.antt =====
-- QuicConstrictor on a long header and the short header that answers it.
use pcap_constrictor_win_pac.Base.{
  ◌++◌, Bytes, ℕ, zero, suc, ◌+◌, ◌<◌, ◌≤◌, ◌≡◌, refl, true, [], ◌∷◌, arith, some, replicate,
  get_or, ap,
}
use pcap_constrictor_win_pac.Base.Table.{find}
use pcap_constrictor_win_pac.Quic.Bounds.{IsId, parse_long_header_bounds}
use pcap_constrictor_win_pac.Quic.Evaluate.{
  evaluate, expected_dcid, is_candidate, quic_payload, port_configured,
}
use pcap_constrictor_win_pac.Quic.Exchange.{evaluate-evaluate}
use pcap_constrictor_win_pac.Quic.Flow.{
  make_canonical_flow, compare_endpoints, source_endpoint, destination_endpoint, compare_bytes,
  make_endpoint,
}
use pcap_constrictor_win_pac.Quic.Isolation.{evaluate_other_flow}
use pcap_constrictor_win_pac.Quic.Learning.{IsMatch, evaluate-IsMatch}
use pcap_constrictor_win_pac.Quic.Output.{IsShortCut, evaluate-IsShortCut}
use pcap_constrictor_win_pac.Quic.Parse.{
  LongHeaderInfo, parse_long_header, header_fields, read_connection_id, packet_end, skip_measured,
  read_varint, varint_loop, varint_length, is_long_header, is_short_header_compatible,
}
use pcap_constrictor_win_pac.Quic.Steps.{Reaches}
use pcap_constrictor_win_pac.Quic.Symmetry.{mirror, turn, make_canonical_flow-mirror}
use pcap_constrictor_win_pac.Quic.Types.{
  plain, long_header, FlowKey, FlowState, Flows, flow_eq, short_header_matched,
}
use pcap_constrictor_win_pac.Quic.Coalesced.{
  Coalesced, all_read, next, sender_id, evaluate-Coalesced,
}
use pcap_constrictor_win_pac.Quic.RoundTrip.{parse_long_header-long_header_bytes}
use pcap_constrictor_win_pac.Quic.Wire.{
  Lies, nothing, byte, LongHeader, IsLongHeader, one, two, long_header_bytes,
}
use pcap_constrictor_win_pac.Span.{
  Span, of_list, has_bytes, byte_at, read_be32, copy_bytes, subspan,
}
use pcap_constrictor_win_pac.Tests.Samples.{
  long_payload, short_payload, udp_span, udp_decoded, short_quic,
}

abbrev long_span : Span
long_span = of_list long_payload

abbrev long_info : LongHeaderInfo
long_info = record {
  total_size = 13;
  packet_type = 1;
  version = 1;
  dcid = record { bytes = replicate 20 0; length = 0; known = true };
  scid = record { bytes = 7 ∷ 7 ∷ replicate 18 0; length = 2; known = true };
}

parsed : parse_long_header long_span 0 ≡ some long_info
unfolding parse_long_header header_fields read_connection_id packet_end skip_measured read_varint
    varint_loop varint_length is_long_header has_bytes of_list byte_at read_be32 copy_bytes
parsed = refl

parse_long_header_bounds_example :
    (7 ≤ 13) × (0 + 13 ≤ 13) × IsId long_info.scid × IsId long_info.dcid
unfolding of_list
parse_long_header_bounds_example = parse_long_header_bounds long_span 0 parsed

-- An Initial packet without a token, behind another byte.
abbrev initial : LongHeader
initial = record {
  first_byte = 0xc3;
  version = 1;
  dcid = 7 ∷ [];
  scid = [];
  token_width = one;
  token = [];
  packet_width = two;
  packet = 9 ∷ 9 ∷ [];
}

abbrev initial_span : Span
initial_span = of_list (5 ∷ long_header_bytes initial)

initial_fits : IsLongHeader initial
initial_fits = record {
  high_bit = omega arith;
  one_byte = omega arith;
  not_retry = omega arith;
  some_version = omega arith;
  version_fits = omega arith;
  dcid_fits = omega arith;
  scid_fits = omega arith;
  token_fits = omega arith;
  packet_fits = omega arith;
}

initial_lies : Lies initial_span 1 (long_header_bytes initial)
unfolding of_list byte_at
initial_lies = byte refl (
    byte refl (
      byte refl (
        byte refl (
          byte refl (
            byte refl (
              byte refl (
                byte refl (
                  byte refl
                    (byte refl (byte refl (byte refl (byte refl (nothing (omega arith))))))))))))))

parse_long_header-long_header_bytes_example :
    parse_long_header initial_span 1
    ≡ some (record {
      total_size = 13;
      packet_type = 0;
      version = 1;
      dcid = record { bytes = 7 ∷ replicate 19 0; length = 1; known = true };
      scid = record { bytes = replicate 20 0; length = 0; known = true };
    })
parse_long_header-long_header_bytes_example =
    parse_long_header-long_header_bytes initial_span 1 initial initial_fits initial_lies

make_canonical_flow-mirror_example :
    make_canonical_flow (mirror (udp_decoded 5))
    ≡ ((make_canonical_flow (udp_decoded 5)).0, turn (make_canonical_flow (udp_decoded 5)).1)
unfolding compare_endpoints source_endpoint destination_endpoint compare_bytes make_endpoint
make_canonical_flow-mirror_example = make_canonical_flow-mirror (udp_decoded 5) (λ e. ground arith)

evaluate-IsShortCut_example :
    IsShortCut (udp_decoded 13) (evaluate [] (udp_span long_payload) (udp_decoded 13) short_quic).1
unfolding of_list
evaluate-IsShortCut_example =
    evaluate-IsShortCut [] (udp_span long_payload) (udp_decoded 13) short_quic (omega arith)

long_payload-Reaches : Reaches (udp_span long_payload) (udp_decoded 13) short_quic
unfolding is_candidate of_list port_configured
long_payload-Reaches = record { candidate = refl; inside = omega arith }

short_payload-Reaches : Reaches (udp_span short_payload) (mirror (udp_decoded 5)) short_quic
unfolding is_candidate of_list port_configured
short_payload-Reaches = record { candidate = refl; inside = omega arith }

announced :
    parse_long_header (quic_payload (udp_span long_payload) (udp_decoded 13)) 0 ≡ some long_info
unfolding parse_long_header header_fields read_connection_id packet_end skip_measured read_varint
    varint_loop varint_length is_long_header has_bytes of_list byte_at read_be32 copy_bytes
    quic_payload subspan
announced = refl

carried :
    (i : ℕ)
    → i < 2
    → get_or long_info.scid.bytes (0 + i) 0
      ≡ byte_at (quic_payload (udp_span short_payload) (mirror (udp_decoded 5))) (1 + i)
unfolding byte_at quic_payload subspan of_list
carried zero h = refl
carried (suc zero) h = refl
carried (suc (suc i)) h = absurd (omega (arith, h))

abbrev learned : Flows
learned = (evaluate [] (udp_span long_payload) (udp_decoded 13) short_quic).0

evaluate-evaluate_example :
    (evaluate learned (udp_span short_payload) (mirror (udp_decoded 5)) short_quic).1
    ≡ record { disposition = short_header_matched; output_len = 45 }
unfolding make_canonical_flow compare_endpoints source_endpoint destination_endpoint compare_bytes
    make_endpoint quic_payload subspan is_short_header_compatible byte_at of_list
evaluate-evaluate_example =
    evaluate-evaluate [] short_quic (udp_span long_payload) (udp_decoded 13) long_info
      (udp_span short_payload) (mirror (udp_decoded 5)) long_payload-Reaches short_payload-Reaches
      announced refl (omega arith) refl refl (omega arith) carried

evaluate-IsMatch_example :
    (state : FlowState) × (offset : ℕ) × (find
        (make_canonical_flow (mirror (udp_decoded 5))).0
        (evaluate learned (udp_span short_payload) (mirror (udp_decoded 5)) short_quic).0
      ≡ some state)
    × IsMatch
        (quic_payload (udp_span short_payload) (mirror (udp_decoded 5)))
        offset
        (expected_dcid (make_canonical_flow (mirror (udp_decoded 5))).1 state)
evaluate-IsMatch_example =
    evaluate-IsMatch learned (udp_span short_payload) (mirror (udp_decoded 5)) short_quic refl
      matched
  where
    matched :
        (evaluate learned
          (udp_span short_payload)
          (mirror (udp_decoded 5))
          short_quic).1.disposition
        ≡ short_header_matched
    matched = ap (λ r. r.disposition) evaluate-evaluate_example

abbrev other_flow : FlowKey
other_flow = (make_canonical_flow (record (udp_decoded 13) { src_port = 444 })).0

evaluate_other_flow_example :
    find other_flow (evaluate [] (udp_span long_payload) (udp_decoded 13) short_quic).0
    ≡ find other_flow []
unfolding make_canonical_flow compare_endpoints source_endpoint destination_endpoint compare_bytes
    make_endpoint
evaluate_other_flow_example =
    evaluate_other_flow other_flow [] (udp_span long_payload) (udp_decoded 13) short_quic
      (λ e. ground arith)

-- An Initial packet without a source id, and a Handshake packet behind it that announces 7 7.
abbrev handshake : LongHeader
handshake = record {
  first_byte = 0xe0;
  version = 1;
  dcid = [];
  scid = 7 ∷ 7 ∷ [];
  token_width = one;
  token = [];
  packet_width = one;
  packet = 1 ∷ [];
}

handshake_fits : IsLongHeader handshake
handshake_fits = record {
  high_bit = omega arith;
  one_byte = omega arith;
  not_retry = omega arith;
  some_version = omega arith;
  version_fits = omega arith;
  dcid_fits = omega arith;
  scid_fits = omega arith;
  token_fits = omega arith;
  packet_fits = omega arith;
}

abbrev both : Bytes
both = long_header_bytes initial ++ long_header_bytes handshake

both-Reaches : Reaches (udp_span both) (udp_decoded 24) short_quic
unfolding is_candidate of_list port_configured
both-Reaches = record { candidate = refl; inside = omega arith }

both-Coalesced :
    Coalesced (quic_payload (udp_span both) (udp_decoded 24)) 0 (initial ∷ handshake ∷ [])
unfolding quic_payload subspan of_list byte_at
both-Coalesced =
    next initial_fits
      (byte refl (
        byte refl (
          byte refl (
            byte refl (
              byte refl (
                byte refl (
                  byte refl (
                    byte refl (
                      byte refl (
                        byte refl
                          (byte refl (byte refl (byte refl (nothing (omega arith)))))))))))))))
      (next handshake_fits
        (byte refl (
          byte refl (
            byte refl (
              byte refl (
                byte refl (
                  byte refl (
                    byte refl
                      (byte refl (byte refl (byte refl (byte refl (nothing (omega arith)))))))))))))
        (all_read refl))

evaluate-Coalesced_example :
    let (after, result) = evaluate [] (udp_span both) (udp_decoded 24) short_quic in
    let (key, direction) = make_canonical_flow (udp_decoded 24) in
    (result ≡ plain long_header)
    × (sender_id key direction after
        ≡ record { bytes = 7 ∷ 7 ∷ replicate 18 0; length = 2; known = true })
evaluate-Coalesced_example =
    evaluate-Coalesced [] (udp_span both) (udp_decoded 24) short_quic initial (handshake ∷ [])
      both-Reaches both-Coalesced
