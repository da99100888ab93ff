-- ===== src/Tls/Invariant.antt =====
-- What every entry of the direction table satisfies, after any sequence of packets.
use pcap_constrictor_win_pac.Base.{
  ℕ, ◌+◌, ◌<◌, ◌≡◌, refl, sym, subst, ◌⊎◌, Bool-cases, Bool, true, false, ◌&&◌, Option, none, some,
  arith, ◌==◌, if◌then◌else◌, inl, inr,
}
use pcap_constrictor_win_pac.Base.Table.{find, find_or, store, erase, find-store, find-erase}
use pcap_constrictor_win_pac.Tls.Loop.{scan_loop_inv}
use pcap_constrictor_win_pac.Policy.Config.{TlsOptions}
use pcap_constrictor_win_pac.Span.Locality.{read_be16-lt}
use pcap_constrictor_win_pac.Span.{Span}
use pcap_constrictor_win_pac.Decode.Types.{PacketDecodeResult}
use pcap_constrictor_win_pac.Tls.Evaluate.{
  is_syn_or_rst, flush, reset_entry, conclude, after_scan, start_scan, scan, evaluate, tls_payload,
}
use pcap_constrictor_win_pac.Tls.Cases.{evaluate_cases}
use pcap_constrictor_win_pac.Tls.Scan.{
  RecordHeader, Scan, Round, again, leave, no_record_return, read_tls_record_header, take_record,
  scan_round, scan_step, scan_loop, confirm, check_sequence, resume_record, advance_tcp_seq,
  tls_application_data,
}
use pcap_constrictor_win_pac.Tls.Types.{
  DirectionKey, DirectionState, Directions, empty_state, direction_eq, make_direction_key,
}

pub record IsConsistent (s : DirectionState) : Type 0 where
  pub active_synchronized : s.has_active_record ≡ true → s.synchronized ≡ true
  pub active_pending : s.has_active_record ≡ true → 0 < s.active_record_remaining_bytes
  pub active_bounded : s.active_record_remaining_bytes < 65540
  pub idle : s.has_active_record ≡ false → s.active_record_remaining_bytes ≡ 0
  pub constrictible_iff :
      s.active_record_constrictible
      ≡ (s.has_active_record && s.active_record_content_type == tls_application_data)
  pub constrictible_seen : s.active_record_constrictible ≡ true → s.has_seen_application_data ≡ true

abbrev pub AllConsistent : Directions → Type 0
AllConsistent d = (k : DirectionKey) (s : DirectionState) → find k d ≡ some s → IsConsistent s

pub store-AllConsistent :
    (k : DirectionKey) (s : DirectionState) (d : Directions)
    → IsConsistent s
    → AllConsistent d
    → AllConsistent (store k s d)
store-AllConsistent k s d c a j t e = ground (arith, find-store k j s d, a j t)

pub erase-AllConsistent :
    (k : DirectionKey) (d : Directions) → AllConsistent d → AllConsistent (erase k d)
erase-AllConsistent k d a j t e = ground (arith, find-erase k j d, a j t)

pub find_or-IsConsistent :
    (k : DirectionKey) (d : Directions) → AllConsistent d → IsConsistent (find_or k empty_state d)
unfolding find_or
find_or-IsConsistent k d a = ground (arith, a k (find_or k empty_state d))

confirm-AllConsistent :
    (k : DirectionKey) (d : Directions) → AllConsistent d → AllConsistent (confirm k d)
unfolding confirm
confirm-AllConsistent k d a =
    store-AllConsistent k _ d (let c = find_or-IsConsistent k d a in ground arith) a

abbrev pub last_scan : Round → Scan
last_scan (again s) = s
last_scan (leave s) = s
last_scan (no_record_return erased s) = s

module _ (config : TlsOptions) (reverse_key : DirectionKey) (payload : Span)
    (confirmed : Bool) where
  take_record-IsConsistent :
      (h : RecordHeader) (s : Scan)
      → h.record_length < 65536
      → s.payload_offset < payload.size
      → IsConsistent s.state
      → IsConsistent (last_scan (take_record config reverse_key payload h s)).state
  unfolding take_record
  take_record-IsConsistent h s b lt c = ground arith

  scan_round-IsConsistent :
      (h : Option RecordHeader) (s : Scan)
      → ((r : RecordHeader) → h ≡ some r → r.record_length < 65536)
      → s.payload_offset < payload.size
      → IsConsistent s.state
      → IsConsistent (last_scan (scan_round config reverse_key payload confirmed h s)).state
  unfolding scan_round
  scan_round-IsConsistent none s b lt c = ground arith
  scan_round-IsConsistent (some h) s b lt c =
      ground (arith, take_record-IsConsistent h s (b h refl))

  pub read_tls_record_header-lt :
      (offset : ℕ) (r : RecordHeader)
      → read_tls_record_header payload offset ≡ some r
      → r.record_length < 65536
  unfolding read_tls_record_header
  read_tls_record_header-lt offset r e = ground (arith, read_be16-lt payload (offset + 3))

  scan_loop-IsConsistent :
      (fuel : ℕ) (s : Scan)
      → IsConsistent s.state
      → IsConsistent (last_scan (scan_loop fuel config reverse_key payload confirmed s)).state
  unfolding scan_step
  scan_loop-IsConsistent =
      scan_loop_inv config reverse_key payload confirmed (λ r. IsConsistent (last_scan r).state)
        (λ s c. c)
        (λ s c on.
          scan_round-IsConsistent _ s (read_tls_record_header-lt s.payload_offset) (ground arith) c)

  -- A round leaves the table alone, or confirms the reverse direction in it.
  pub scan_round-directions :
      (h : Option RecordHeader) (s : Scan)
      → let d = (last_scan (scan_round config reverse_key payload confirmed h s)).directions in
        (d ≡ s.directions) ⊎ (d ≡ confirm reverse_key s.directions)
  unfolding scan_round
  scan_round-directions none s = ground arith
  scan_round-directions (some h) s = ground arith

  scan_loop-AllConsistent :
      (fuel : ℕ) (s : Scan)
      → AllConsistent s.directions
      → AllConsistent (last_scan (scan_loop fuel config reverse_key payload confirmed s)).directions
  unfolding scan_step
  scan_loop-AllConsistent =
      scan_loop_inv config reverse_key payload confirmed
        (λ r. AllConsistent (last_scan r).directions) (λ s a. a)
        (λ s a on.
          elim (scan_round-directions (read_tls_record_header payload s.payload_offset) s) [
            | inl same ↦ subst AllConsistent (sym same) a
            | inr marked ↦ subst AllConsistent (sym marked) (confirm-AllConsistent reverse_key _ a)
          ])

module _ (config : TlsOptions) (decoded : PacketDecodeResult) where
  start_scan-IsConsistent :
      (d : Directions) → AllConsistent d → IsConsistent (start_scan config decoded d).state
  unfolding start_scan resume_record check_sequence
  start_scan-IsConsistent d a =
      ground (arith, find_or-IsConsistent (make_direction_key decoded) d a)

  pub start_scan-directions : (d : Directions) → (start_scan config decoded d).directions ≡ d
  unfolding start_scan resume_record
  start_scan-directions d = ground arith

flush-AllConsistent :
    (d : Directions) (decoded : PacketDecodeResult)
    → AllConsistent d
    → AllConsistent (flush d decoded)
unfolding flush
flush-AllConsistent d decoded a = elim (Bool-cases (is_syn_or_rst decoded.tcp_flags)) [
  | inl new ↦ rw new (erase-AllConsistent _ _ (erase-AllConsistent _ d a))
  | inr old ↦ rw old a
]

reset_entry-AllConsistent :
    (k : DirectionKey) (s : DirectionState) (d : Directions)
    → AllConsistent d
    → AllConsistent (reset_entry k s d)
unfolding reset_entry
reset_entry-AllConsistent k s d a = elim (Bool-cases s.confirmed_tls) [
  | inl tls ↦ rw tls (store-AllConsistent k _ _ (ground arith) (erase-AllConsistent k d a))
  | inr other ↦ rw other (erase-AllConsistent k d a)
]

-- The entry that the end of the walk stores.
abbrev pub final_state : PacketDecodeResult → Scan → DirectionState
final_state decoded s = record s.state {
  expected_tcp_seq = advance_tcp_seq decoded.tcp_seq decoded.transport_payload_length;
}

pub conclude-directions :
    (packet : Span) (decoded : PacketDecodeResult) (k : DirectionKey) (s : Scan)
    → (conclude packet decoded k s).0 ≡ (
        let stored = store k (final_state decoded s) s.directions in
        if s.reset_direction then reset_entry k (final_state decoded s) stored else stored)
unfolding conclude
conclude-directions packet decoded k s = ground arith

conclude-AllConsistent :
    (packet : Span) (decoded : PacketDecodeResult) (k : DirectionKey) (s : Scan)
    → IsConsistent s.state
    → AllConsistent s.directions
    → AllConsistent (conclude packet decoded k s).0
conclude-AllConsistent packet decoded k s c a =
    subst AllConsistent (sym (conclude-directions packet decoded k s))
      (elim (Bool-cases s.reset_direction) [
        | inl reset ↦ rw reset (reset_entry-AllConsistent k _ _ stored)
        | inr going ↦ rw going stored
      ])
  where
    stored : AllConsistent (store k (final_state decoded s) s.directions)
    stored = store-AllConsistent k _ _ (ground arith) a

after_scan-AllConsistent :
    (packet : Span) (decoded : PacketDecodeResult) (k : DirectionKey) (r : Round)
    → IsConsistent (last_scan r).state
    → AllConsistent (last_scan r).directions
    → AllConsistent (after_scan packet decoded k r).0
unfolding after_scan
after_scan-AllConsistent packet decoded k (again s) c a =
    conclude-AllConsistent packet decoded k s c a
after_scan-AllConsistent packet decoded k (leave s) c a =
    conclude-AllConsistent packet decoded k s c a
after_scan-AllConsistent packet decoded k (no_record_return true s) c a =
    erase-AllConsistent k s.directions a
after_scan-AllConsistent packet decoded k (no_record_return false s) c a =
    store-AllConsistent k s.state s.directions c a

-- Every packet keeps the direction table consistent: in each entry an active record belongs to a
-- synchronised direction and has between 1 and 65539 bytes to come, an idle entry has none, the
-- record is constrictible exactly when it is active Application Data, and then the direction has
-- been marked as having seen Application Data.
pub evaluate-AllConsistent :
    (directions : Directions) (packet : Span) (decoded : PacketDecodeResult) (config : TlsOptions)
    → AllConsistent directions
    → AllConsistent (evaluate directions packet decoded config).0
unfolding scan
evaluate-AllConsistent d packet decoded config a =
    evaluate_cases (λ r. AllConsistent r.0) d packet decoded config (λ _. a) (λ _ _. f) (λ _ _. f)
      λ _ _ _.
        after_scan-AllConsistent packet decoded _ (scan config packet decoded _)
          (scan_loop-IsConsistent config _ payload _ payload.size _
            (start_scan-IsConsistent config decoded _ f))
          (scan_loop-AllConsistent config _ payload _ payload.size _
            (subst AllConsistent (sym (start_scan-directions config decoded _)) f))
  where
    f : AllConsistent (flush d decoded)
    f = flush-AllConsistent d decoded a

    payload : Span
    payload = tls_payload packet decoded
