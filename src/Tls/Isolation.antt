-- ===== src/Tls/Isolation.antt =====
-- TlsConstrictor::Evaluate touches the entries of one connection only.
use pcap_constrictor_win_pac.Base.{
  ◌≡◌, ◌≢◌, refl, ap, ◌∙◌, true, false, inl, inr, none, arith, Bool-cases,
}
use pcap_constrictor_win_pac.Base.Table.{find, store, erase, find-store, find-erase}
use pcap_constrictor_win_pac.Decode.Types.{PacketDecodeResult, is_tcp}
use pcap_constrictor_win_pac.Policy.Config.{TlsOptions}
use pcap_constrictor_win_pac.Span.{Span}
use pcap_constrictor_win_pac.Tls.Cases.{evaluate_cases}
use pcap_constrictor_win_pac.Tls.Evaluate.{
  is_syn_or_rst, flush, reset_entry, conclude, after_scan, scan, evaluate, tls_payload,
}
use pcap_constrictor_win_pac.Tls.Invariant.{
  last_scan, scan_round-directions, start_scan-directions, conclude-directions,
}
use pcap_constrictor_win_pac.Tls.Loop.{scan_loop_inv}
use pcap_constrictor_win_pac.Tls.Scan.{
  Scan, Round, again, leave, no_record_return, read_tls_record_header, scan_step, confirm,
}
use pcap_constrictor_win_pac.Tls.Types.{
  Directions, DirectionKey, DirectionState, direction_eq, key_beq_iff, make_direction_key,
  reverse_direction_key,
}

-- The tables agree on the key.
abbrev Same : DirectionKey → Directions → Directions → Type 0
Same j d e = find j e ≡ find j d

module _ (j k : DirectionKey) (other : k ≢ j) where
  store-Same : (s : DirectionState) (d : Directions) → Same j d (store k s d)
  store-Same s d = ground (arith, find-store k j s d, key_beq_iff k j)

  erase-Same : (d : Directions) → Same j d (erase k d)
  erase-Same d = ground (arith, find-erase k j d, key_beq_iff k j)

  confirm-Same : (d : Directions) → Same j d (confirm k d)
  unfolding confirm
  confirm-Same d = store-Same _ d

  reset_entry-Same : (s : DirectionState) (d : Directions) → Same j d (reset_entry k s d)
  unfolding reset_entry
  reset_entry-Same s d = elim (Bool-cases s.confirmed_tls) [
    | inl tls ↦ rw tls (store-Same _ (erase k d) ∙ erase-Same d)
    | inr plain ↦ rw plain (erase-Same d)
  ]

module _ (j : DirectionKey) (packet : Span) (decoded : PacketDecodeResult) (config : TlsOptions)
    (not_key : make_direction_key decoded ≢ j)
    (not_reverse : reverse_direction_key decoded ≢ j) where
  flush-Same : (d : Directions) → Same j d (flush d decoded)
  unfolding flush
  flush-Same d = elim (Bool-cases (is_syn_or_rst decoded.tcp_flags)) [
    | inl new ↦ rw new (erase-Same j _ not_reverse _ ∙ erase-Same j _ not_key d)
    | inr old ↦ rw old
  ]

  scan-Same : (d : Directions) → Same j d (last_scan (scan config packet decoded d)).directions
  unfolding scan scan_step
  scan-Same d =
      scan_loop_inv config _ payload _ (λ r. Same j d (last_scan r).directions) (λ s a. a)
        (λ s a on.
          elim (scan_round-directions config (reverse_direction_key decoded) payload _
            (read_tls_record_header payload s.payload_offset) s) [
              | inl same ↦ ap (find j) same ∙ a
              | inr marked ↦ ap (find j) marked ∙ confirm-Same j _ not_reverse _ ∙ a
            ])
        payload.size _ (ap (find j) (start_scan-directions config decoded d))
    where
      payload : Span
      payload = tls_payload packet decoded

  conclude-Same :
      (s : Scan) → Same j s.directions (conclude packet decoded (make_direction_key decoded) s).0
  conclude-Same s =
      ap (find j) (conclude-directions packet decoded _ s) ∙ elim (Bool-cases s.reset_direction) [
        | inl reset ↦ rw reset (reset_entry-Same j _ not_key _ _ ∙ store-Same j _ not_key _ _)
        | inr going ↦ rw going (store-Same j _ not_key _ _)
      ]

  after_scan-Same :
      (r : Round)
      → Same j (last_scan r).directions (after_scan packet decoded (make_direction_key decoded) r).0
  unfolding after_scan
  after_scan-Same (again s) = conclude-Same s
  after_scan-Same (leave s) = conclude-Same s
  after_scan-Same (no_record_return true s) = erase-Same j _ not_key s.directions
  after_scan-Same (no_record_return false s) = store-Same j _ not_key _ s.directions

  -- A packet changes no entry but those of its own direction and of the reverse one.
  pub evaluate-Same :
      (directions : Directions)
      → find j (evaluate directions packet decoded config).0 ≡ find j directions
  evaluate-Same d =
      evaluate_cases (λ r. Same j d r.0) d packet decoded config (λ _. refl) (λ _ _. flush-Same d)
        (λ _ _. flush-Same d)
        λ _ _ _. after_scan-Same _ ∙ scan-Same (flush d decoded) ∙ flush-Same d

find-erase_self : (k : DirectionKey) (d : Directions) → find k (erase k d) ≡ none
find-erase_self k d = ground (arith, find-erase k k d, key_beq_iff k k)

-- A SYN or RST segment without payload forgets both directions of its connection.
pub evaluate_syn :
    (directions : Directions) (packet : Span) (decoded : PacketDecodeResult) (config : TlsOptions)
    → is_tcp decoded.transport_protocol ≡ true
    → is_syn_or_rst decoded.tcp_flags ≡ true
    → decoded.transport_payload_length ≡ 0
    → let after = (evaluate directions packet decoded config).0 in
      (find (make_direction_key decoded) after ≡ none)
      × (find (reverse_direction_key decoded) after ≡ none)
unfolding evaluate flush
evaluate_syn d packet decoded config tcp new empty = ground (
  arith,
  find-erase (reverse_direction_key decoded) (make_direction_key decoded)
      (erase (make_direction_key decoded) d),
  find-erase_self (make_direction_key decoded) d,
  find-erase_self (reverse_direction_key decoded) (erase (make_direction_key decoded) d),
)
