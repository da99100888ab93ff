-- ===== src/Tls/Spanning.antt =====
-- TlsConstrictor::Evaluate on an Application Data record from its first segment to its last.
use pcap_constrictor_win_pac.Base.{
  ℕ, ◌+◌, ◌-◌, ◌<◌, ◌≡◌, refl, ◌||◌, min, true, false, List, [], ◌∷◌, ◌++◌, map, some, arith,
}
use pcap_constrictor_win_pac.Base.Table.{find_or, store}
use pcap_constrictor_win_pac.Policy.Config.{TlsOptions}
use pcap_constrictor_win_pac.Span.{subspan}
use pcap_constrictor_win_pac.Tls.Cases.{evaluate_cases}
use pcap_constrictor_win_pac.Tls.Continuation.{find_or-store, evaluate_all-Carry}
use pcap_constrictor_win_pac.Tls.Evaluate.{flush, conclude, after_scan, scan, evaluate, tls_payload}
use pcap_constrictor_win_pac.Tls.Invariant.{read_tls_record_header-lt}
use pcap_constrictor_win_pac.Tls.Loop.{scan_loop_lem}
use pcap_constrictor_win_pac.Tls.Reference.{cut_result, entry, fresh_scan, start_scan-idle}
use pcap_constrictor_win_pac.Tls.Scan.{
  RecordHeader, Scan, leave, clamped_keep_size, scan_step, scan_round, take_record, note_record,
  note_candidate, start_active, read_tls_record_header, advance_tcp_seq, tls_application_data,
}
use pcap_constrictor_win_pac.Tls.Segments.{
  Segment, length_of, Waits, Arrives, Carry, evaluate_all, kept_whole,
}
use pcap_constrictor_win_pac.Tls.Types.{
  DirectionKey, DirectionState, Directions, TlsConstrictResult, empty_state, direction_eq,
  make_direction_key, reverse_direction_key,
}

-- A segment that begins with the header of an Application Data record of `record_length` bytes
-- that goes on behind the segment, in a direction that is in no record, and is synchronised or
-- known to be TLS.
pub record Opens (d : Directions) (key : DirectionKey) (seq record_length : ℕ) (g : Segment)
    : Type 0 where
  pub arrives : Arrives key seq g
  pub is_idle : (entry d g.decoded).has_active_record ≡ false
  pub is_known :
      ((entry d g.decoded).synchronized || (find_or key empty_state d).confirmed_tls) ≡ true
  pub header_at_start :
      read_tls_record_header (tls_payload g.packet g.decoded) 0
      ≡ some (record { content_type = tls_application_data; record_length = record_length })
  pub goes_behind : length_of g < 5 + record_length

module _ (config : TlsOptions) (key : DirectionKey) (d : Directions) {seq record_length : ℕ}
    (g : Segment) (opens : Opens d key seq record_length g) where
  abbrev opened : DirectionState
  opened = record (entry d g.decoded) {
    has_seen_application_data = true;
    synchronized = true;
    has_active_record = true;
    active_record_content_type = tls_application_data;
    active_record_remaining_bytes = 5 + record_length - length_of g;
    active_record_constrictible = true;
  }

  abbrev opening : Scan
  opening = record (fresh_scan g.decoded d) {
    state = opened;
    payload_offset = length_of g;
    candidate_payload_size = min config.app_data_keep_record_bytes (length_of g);
    has_candidate = true;
  }

  abbrev header : RecordHeader
  header = record { content_type = tls_application_data; record_length = record_length }

  scan_round-opening :
      scan_round config
        (reverse_direction_key g.decoded)
        (tls_payload g.packet g.decoded)
        (find_or key empty_state d).confirmed_tls
        (some header)
        (fresh_scan g.decoded d)
      ≡ leave opening
  unfolding scan_round take_record note_record note_candidate start_active clamped_keep_size
      tls_payload subspan
  scan_round-opening =
      let known = opens.is_known in
      let long = opens.goes_behind in
      let short =
        read_tls_record_header-lt config (reverse_direction_key g.decoded)
          (tls_payload g.packet g.decoded) true 0 header opens.header_at_start in
      ground arith

  scan-opening : scan config g.packet g.decoded d ≡ leave opening
  unfolding scan scan_step
  scan-opening =
      let there = opens.arrives.not_empty in
      rw
        (
          opens.arrives.same_key,
          start_scan-idle config g.decoded d opens.is_idle,
          scan_loop_lem,
          opens.header_at_start,
          scan_round-opening,
        )
        (unfold tls_payload subspan in ground arith)

  abbrev answer : Directions × TlsConstrictResult
  answer = (
    store key (record opened { expected_tcp_seq = advance_tcp_seq seq (length_of g) }) d,
    cut_result g.packet g.decoded (some (min config.app_data_keep_record_bytes (length_of g))),
  )

  after_opening :
      after_scan g.packet g.decoded
        (make_direction_key g.decoded)
        (scan config g.packet g.decoded (flush d g.decoded))
      ≡ answer
  unfolding flush after_scan conclude
  after_opening =
      let a = opens.arrives in rw (a.no_flags, a.same_key, scan-opening, a.in_order) ground arith

  evaluate-opening : evaluate d g.packet g.decoded config ≡ answer
  evaluate-opening =
      evaluate_cases (λ r. r ≡ answer) d g.packet g.decoded config
        (λ other. let tcp = opens.arrives.over_tcp in absurd (grind arith))
        (λ _ empty. let long = opens.arrives.not_empty in absurd (omega arith))
        (λ _ out. let inside = opens.arrives.is_inside in absurd (grind arith))
        (λ _ _ _. after_opening)

  opening-Waits :
      Waits
        (advance_tcp_seq seq (length_of g))
        (5 + record_length - length_of g)
        (find_or key empty_state (evaluate d g.packet g.decoded config).0)
  opening-Waits =
      rw (evaluate-opening, find_or-store)
        (record {
          is_synchronized = refl;
          next_seq = refl;
          is_active = refl;
          is_constrictible = refl;
          lacks = refl;
        })

  -- An Application Data record that begins with a TCP segment, goes on in segments that arrive in
  -- order and ends with one of them: the first is cut to app_data_keep_record_bytes of its payload
  -- and the last to app_data_continuation_keep_bytes, each kept whole if nothing is behind the
  -- cut, and all between them are kept whole. The direction is idle before, and synchronised or
  -- known to be TLS; afterwards it is idle and synchronised.
  pub evaluate_all-Opens :
      (last : Segment) (middles : List Segment)
      → Carry key last (advance_tcp_seq seq (length_of g)) (5 + record_length - length_of g) middles
      → let (after, results) = evaluate_all config d (g ∷ middles ++ (last ∷ [])) in
        (results
          ≡ cut_result g.packet g.decoded
              (some (min config.app_data_keep_record_bytes (length_of g)))
            ∷ (map kept_whole middles
                ++ (cut_result last.packet last.decoded
                      (some (min config.app_data_continuation_keep_bytes (length_of last)))
                    ∷ [])))
        × ((find_or key empty_state after).has_active_record ≡ false)
        × ((find_or key empty_state after).synchronized ≡ true)
  evaluate_all-Opens last middles carry =
      let short =
        read_tls_record_header-lt config (reverse_direction_key g.decoded)
          (tls_payload g.packet g.decoded) true 0 header opens.header_at_start in
      let behind = evaluate_all-Carry config key last middles _ opening-Waits (omega arith) carry in
      (λ i. (evaluate-opening i).1 ∷ behind.0 i, behind.1, behind.2)
