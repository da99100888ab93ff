-- ===== src/Tests/Tls.antt =====
-- TlsConstrictor on the frame with a TLS record.
use pcap_constrictor_win_pac.Base.{ℕ, Bytes, ◌≡◌, refl, true, false, [], ◌∷◌, arith, bytes_beq}
use pcap_constrictor_win_pac.Base.Table.{find, find_or}
use pcap_constrictor_win_pac.Policy.Config.{TlsOptions}
use pcap_constrictor_win_pac.Span.{of_list, has_bytes, byte_at, read_be16, subspan}
use pcap_constrictor_win_pac.Tests.Samples.{tls_span, tls_decoded, short_tls}
use pcap_constrictor_win_pac.Tls.Bounds.{IsCut, evaluate-IsCut}
use pcap_constrictor_win_pac.Tls.Evaluate.{evaluate, keep_all, flush, is_syn_or_rst, tls_payload}
use pcap_constrictor_win_pac.Tls.Invariant.{AllConsistent, evaluate-AllConsistent}
use pcap_constrictor_win_pac.Tls.Isolation.{evaluate-Same}
use pcap_constrictor_win_pac.Tls.Records.{Tiles, next, filled}
use pcap_constrictor_win_pac.Tls.Reference.{evaluate-Tiles}
use pcap_constrictor_win_pac.Tls.Scan.{
  RecordHeader, check_sequence, read_tls_record_header, is_tls_content_type, advance_tcp_seq,
}
use pcap_constrictor_win_pac.Tls.Segments.{Segment, Arrives, Carry, final, middle, evaluate_all}
use pcap_constrictor_win_pac.Tls.Spanning.{Opens, evaluate_all-Opens}
use pcap_constrictor_win_pac.Tls.Types.{
  DirectionKey, Directions, empty_state, make_direction_key, reverse_direction_key, direction_eq,
  app_data_prefix, no_application_data, key_beq,
}

-- The table in which the direction of the frame is known to be TLS.
abbrev known : Directions
known = (make_direction_key tls_decoded, record empty_state { confirmed_tls = true }) ∷ []

abbrev app_data : RecordHeader
app_data = record { content_type = 23; record_length = 8 }

tiles : Tiles (tls_payload tls_span tls_decoded) 0 (app_data ∷ [])
unfolding tls_payload subspan of_list read_tls_record_header has_bytes byte_at read_be16
    is_tls_content_type
tiles = next refl (omega arith) (filled refl)

evaluate-Tiles_example :
    (evaluate known tls_span tls_decoded short_tls).1
    ≡ record { disposition = app_data_prefix; output_len = 60 }
unfolding flush is_syn_or_rst find_or find make_direction_key key_beq check_sequence has_bytes
    of_list bytes_beq
evaluate-Tiles_example =
    evaluate-Tiles known tls_span tls_decoded short_tls (app_data ∷ []) refl (omega arith) refl refl
      refl tiles

evaluate-IsCut_example :
    IsCut tls_span tls_decoded (evaluate known tls_span tls_decoded short_tls).1
unfolding of_list
evaluate-IsCut_example = evaluate-IsCut tls_span tls_decoded (omega arith) known short_tls

evaluate-AllConsistent_example :
    AllConsistent
      (evaluate (evaluate [] tls_span tls_decoded short_tls).0 tls_span tls_decoded short_tls).0
unfolding find
evaluate-AllConsistent_example =
    evaluate-AllConsistent _ tls_span tls_decoded short_tls
      (evaluate-AllConsistent [] tls_span tls_decoded short_tls (λ k s found. ground arith))

-- A record of eight bytes in three segments, with three bytes in the first two each.
abbrev segment : ℕ → Bytes → Segment
segment seq bytes = record {
  packet = of_list bytes;
  decoded = record tls_decoded {
    transport_payload_offset = 0;
    transport_payload_length = (of_list bytes).size;
    tcp_seq = seq;
  };
}

abbrev first_part : Segment
first_part = segment 7 (23 ∷ 3 ∷ 3 ∷ 0 ∷ 8 ∷ 9 ∷ 9 ∷ 9 ∷ [])

abbrev second_part : Segment
second_part = segment 15 (9 ∷ 9 ∷ 9 ∷ [])

abbrev third_part : Segment
third_part = segment 18 (9 ∷ 9 ∷ [])

abbrev key : DirectionKey
key = make_direction_key tls_decoded

arrives : (seq : ℕ) (b : ℕ) (bytes : Bytes) → Arrives key seq (segment seq (b ∷ bytes))
unfolding has_bytes of_list is_syn_or_rst make_direction_key
arrives seq b bytes = record {
  over_tcp = refl;
  is_inside = ground arith;
  not_empty = omega arith;
  no_flags = refl;
  same_key = refl;
  in_order = refl;
}

opens : Opens known key 7 8 first_part
unfolding check_sequence find_or find make_direction_key key_beq bytes_beq read_tls_record_header
    tls_payload subspan of_list has_bytes byte_at read_be16 is_tls_content_type
opens = record {
  arrives = arrives 7 23 (3 ∷ 3 ∷ 0 ∷ 8 ∷ 9 ∷ 9 ∷ 9 ∷ []);
  is_idle = refl;
  is_known = refl;
  header_at_start = refl;
  goes_behind = omega arith;
}

carry : Carry key third_part 15 5 (second_part ∷ [])
unfolding advance_tcp_seq of_list
carry = middle (arrives 15 9 (9 ∷ 9 ∷ [])) (omega arith) (final (arrives 18 9 (9 ∷ [])) refl)

abbrev short_ends : TlsOptions
short_ends = record short_tls { app_data_continuation_keep_bytes = 1 }

evaluate_all-Opens_example :
    let (after, results) =
      evaluate_all short_ends known (first_part ∷ second_part ∷ third_part ∷ []) in
    (results
      ≡ record { disposition = app_data_prefix; output_len = 6 }
        ∷ record { disposition = no_application_data; output_len = 3 }
        ∷ record { disposition = app_data_prefix; output_len = 1 }
        ∷ [])
    × ((find_or key empty_state after).has_active_record ≡ false)
    × ((find_or key empty_state after).synchronized ≡ true)
unfolding of_list keep_all advance_tcp_seq
evaluate_all-Opens_example =
    evaluate_all-Opens short_ends key known first_part opens third_part (second_part ∷ []) carry

abbrev other_key : DirectionKey
other_key = record (make_direction_key tls_decoded) { src_port = 444 }

evaluate-Same_example :
    find other_key (evaluate known tls_span tls_decoded short_tls).0 ≡ find other_key known
unfolding make_direction_key reverse_direction_key
evaluate-Same_example =
    evaluate-Same other_key tls_span tls_decoded short_tls (λ e. ground arith) (λ e. ground arith)
      known
