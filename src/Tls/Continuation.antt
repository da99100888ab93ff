-- ===== src/Tls/Continuation.antt =====
-- TlsConstrictor::Evaluate on an Application Data record that spans several TCP segments.
use pcap_constrictor_win_pac.Base.{
  ℕ, ◌-◌, ◌<◌, ◌≡◌, refl, ◌∙◌, ap, ◌^◌, min, true, false, List, [], ◌∷◌, ◌++◌, map, some, arith,
}
use pcap_constrictor_win_pac.Base.Table.{find_or, store, find-store}
use pcap_constrictor_win_pac.Policy.Config.{TlsOptions}
use pcap_constrictor_win_pac.Span.{subspan}
use pcap_constrictor_win_pac.Tls.Evaluate.{
  flush, keep_all, conclude, after_scan, start_scan, scan, evaluate, tls_payload,
}
use pcap_constrictor_win_pac.Tls.Loop.{scan_loop_lem}
use pcap_constrictor_win_pac.Tls.Reference.{cut_result}
use pcap_constrictor_win_pac.Tls.Scan.{
  advance_tcp_seq, check_sequence, resume_record, clear_active_record,
}
use pcap_constrictor_win_pac.Tls.Segments.{
  Segment, length_of, Waits, Arrives, Carry, final, middle, evaluate_all, kept_whole,
}
use pcap_constrictor_win_pac.Tls.Types.{
  DirectionKey, DirectionState, Directions, no_application_data, empty_state, direction_eq,
  key_beq_iff,
}

module _ (config : TlsOptions) (key : DirectionKey) (d : Directions) where
  abbrev waiting : DirectionState
  waiting = find_or key empty_state d

  -- The entry behind a payload, but for the sequence number.
  abbrev after_payload : Segment → DirectionState
  after_payload g = (start_scan config g.decoded d).state

  start_scan_middle :
      {seq missing : ℕ} (g : Segment)
      → Waits seq missing waiting
      → Arrives key seq g
      → length_of g < missing
      → missing < 2 ^ 32
      → start_scan config g.decoded d ≡ record {
        directions = d;
        state = record waiting { active_record_remaining_bytes = missing - length_of g };
        payload_offset = length_of g;
        candidate_payload_size = length_of g;
        has_candidate = false;
        uncertain = false;
        reset_direction = false;
        kept_middle_continuation = true;
      }
  unfolding start_scan check_sequence resume_record
  start_scan_middle g w a short small =
      rw (a.same_key, w.is_synchronized, w.next_seq, a.in_order, w.is_active, w.lacks)
        (ground arith)

  start_scan_final :
      {seq missing : ℕ} (g : Segment)
      → Waits seq missing waiting
      → Arrives key seq g
      → length_of g ≡ missing
      → start_scan config g.decoded d ≡ record {
        directions = d;
        state = clear_active_record waiting;
        payload_offset = length_of g;
        candidate_payload_size = min config.app_data_continuation_keep_bytes (length_of g);
        has_candidate = true;
        uncertain = false;
        reset_direction = false;
        kept_middle_continuation = false;
      }
  unfolding start_scan check_sequence resume_record clear_active_record
  start_scan_final g w a whole =
      rw (a.same_key, w.is_synchronized, w.next_seq, a.in_order, w.is_active, w.lacks)
        (ground arith)

  -- A payload that the record under way fills is not walked over.
  evaluate_filled :
      {seq : ℕ} (g : Segment)
      → Arrives key seq g
      → (start_scan config g.decoded d).payload_offset ≡ length_of g
      → evaluate d g.packet g.decoded config
        ≡ conclude g.packet g.decoded key (start_scan config g.decoded d)
  unfolding evaluate scan flush tls_payload subspan after_scan
  evaluate_filled g a filled =
      rw (a.over_tcp, a.is_inside, a.no_flags, a.same_key, scan_loop_lem) (ground arith)

  evaluate_middle :
      {seq missing : ℕ} (g : Segment)
      → Waits seq missing waiting
      → Arrives key seq g
      → length_of g < missing
      → missing < 2 ^ 32
      → evaluate d g.packet g.decoded config ≡ (
        store key
            (record waiting {
              active_record_remaining_bytes = missing - length_of g;
              expected_tcp_seq = advance_tcp_seq seq (length_of g);
            })
            d,
        keep_all g.packet no_application_data,
      )
  evaluate_middle {seq} {missing} g w a short small =
      let started = start_scan_middle g w a short small in
      evaluate_filled g a (ap (λ s. s.payload_offset) started)
      ∙ rw started (unfold conclude in rw a.in_order refl)

  evaluate_final :
      {seq missing : ℕ} (g : Segment)
      → Waits seq missing waiting
      → Arrives key seq g
      → length_of g ≡ missing
      → evaluate d g.packet g.decoded config ≡ (
        store key
            (record (clear_active_record waiting) {
              expected_tcp_seq = advance_tcp_seq seq (length_of g);
            })
            d,
        cut_result g.packet g.decoded
            (some (min config.app_data_continuation_keep_bytes (length_of g))),
      )
  unfolding conclude clear_active_record
  evaluate_final g w a whole =
      let started = start_scan_final g w a whole in
      evaluate_filled g a (ap (λ s. s.payload_offset) started)
      ∙ rw started (rw (a.in_order, w.is_synchronized) (ground arith))

pub find_or-store :
    (key : DirectionKey) (s : DirectionState) (d : Directions)
    → find_or key empty_state (store key s d) ≡ s
unfolding find_or
find_or-store key s d = ground (arith, find-store key key s d, key_beq_iff key key)

-- A payload in the middle leaves the direction waiting for the one behind it.
middle-Waits :
    (config : TlsOptions) (key : DirectionKey) (d : Directions) {seq missing : ℕ} (g : Segment)
    → Waits seq missing (find_or key empty_state d)
    → Arrives key seq g
    → length_of g < missing
    → missing < 2 ^ 32
    → Waits
        (advance_tcp_seq seq (length_of g))
        (missing - length_of g)
        (find_or key empty_state (evaluate d g.packet g.decoded config).0)
middle-Waits config key d g w a short small =
    rw (evaluate_middle config key d g w a short small, find_or-store)
      (record {
        is_synchronized = w.is_synchronized;
        next_seq = refl;
        is_active = w.is_active;
        is_constrictible = w.is_constrictible;
        lacks = refl;
      })

-- While a direction is in an Application Data record that lacks `missing` bytes, TCP segments that
-- arrive in order and end where the record ends are answered in one way only: each but the last is
-- kept whole, and the last is cut to app_data_continuation_keep_bytes of its payload, or kept whole
-- if nothing is behind the cut. Afterwards no record is under way, and the direction stays
-- synchronised.
pub evaluate_all-Carry :
    (config : TlsOptions) (key : DirectionKey) (last : Segment) (middles : List Segment)
    (d : Directions) {seq missing : ℕ}
    → Waits seq missing (find_or key empty_state d)
    → missing < 2 ^ 32
    → Carry key last seq missing middles
    → let (after, results) = evaluate_all config d (middles ++ (last ∷ [])) in
      (results
        ≡ map kept_whole middles
          ++ (cut_result last.packet last.decoded
                (some (min config.app_data_continuation_keep_bytes (length_of last)))
              ∷ []))
      × ((find_or key empty_state after).has_active_record ≡ false)
      × ((find_or key empty_state after).synchronized ≡ true)
unfolding clear_active_record
evaluate_all-Carry config key last [] d w small (final a whole) =
    rw (evaluate_final config key d last w a whole, find_or-store) (refl, refl, w.is_synchronized)
evaluate_all-Carry config key last (g ∷ gs) d w small (middle a short rest) =
    let waits = middle-Waits config key d g w a short small in
    let behind = evaluate_all-Carry config key last gs _ waits (omega arith) rest in
    (λ i. (evaluate_middle config key d g w a short small i).1 ∷ behind.0 i, behind.1, behind.2)
