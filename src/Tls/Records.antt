-- ===== src/Tls/Records.antt =====
-- The cut of TlsConstrictor::Evaluate against a reference: where whole TLS records fill a payload,
-- the cut lies in the last Application Data record.
use pcap_constrictor_win_pac.Base.{
  ℕ, zero, suc, ◌+◌, ◌≤◌, ◌≡◌, ◌∙◌, min, Bool, true, false, ◌||◌, List, [], ◌∷◌, Option, none, some,
  arith, ◌==◌, if◌then◌else◌,
}
use pcap_constrictor_win_pac.Policy.Config.{TlsOptions}
use pcap_constrictor_win_pac.Span.{Span}
use pcap_constrictor_win_pac.Tls.Scan.{
  RecordHeader, Scan, Round, again, leave, read_tls_record_header, note_record, note_candidate,
  take_record, scan_round, scan_step, goes_on, scan_loop, tls_handshake, tls_application_data,
}
use pcap_constrictor_win_pac.Tls.Invariant.{last_scan}
use pcap_constrictor_win_pac.Tls.Types.{DirectionKey, direction_eq}

-- A record with its header.
abbrev pub total_size : RecordHeader → ℕ
total_size h = 5 + h.record_length

-- The records fill the payload from `offset` to its end.
pub data Tiles (payload : Span) : ℕ → List RecordHeader → Type 0 where
  filled : {offset : ℕ} → offset ≡ payload.size → Tiles payload offset []
  next :
      {offset : ℕ} {h : RecordHeader} {rs : List RecordHeader}
      → read_tls_record_header payload offset ≡ some h
      → offset + total_size h ≤ payload.size
      → Tiles payload (offset + total_size h) rs
      → Tiles payload offset (h ∷ rs)

-- The cut that the last Application Data record gives: `keep` bytes of it at most.
abbrev pub last_cut : ℕ → ℕ → List RecordHeader → Option ℕ
last_cut keep offset [] = none
last_cut keep offset (h ∷ rs) = elim (last_cut keep (offset + total_size h) rs) [
  | some cut ↦ some cut
  | none ↦
      if h.content_type == tls_application_data
      then some (offset + min keep (total_size h))
      else none
]

abbrev pub has_cut : Option ℕ → Bool
has_cut none = false
has_cut (some c) = true

abbrev pub cut_or : ℕ → Option ℕ → ℕ
cut_or d none = d
cut_or d (some c) = c

abbrev pub starts_with_handshake : List RecordHeader → Bool
starts_with_handshake [] = false
starts_with_handshake (h ∷ rs) = h.content_type == tls_handshake

abbrev is_leave : Round → Bool
is_leave (leave s) = true
is_leave _ = false

abbrev pub has_record : List RecordHeader → Bool
has_record [] = false
has_record (h ∷ rs) = true

-- How the walk ends that starts at `s` and meets the records `rs`, whose cut is `cut`.
pub record WalksTo (cut : Option ℕ) (rs : List RecordHeader) (s : Scan) (r : Round) : Type 0 where
  pub left : is_leave r ≡ true
  pub candidate : (last_scan r).has_candidate ≡ (has_cut cut || s.has_candidate)
  pub size : (last_scan r).candidate_payload_size ≡ cut_or s.candidate_payload_size cut
  pub sure : (last_scan r).uncertain ≡ false
  pub no_reset : (last_scan r).reset_direction ≡ false
  pub same_kept : (last_scan r).kept_middle_continuation ≡ s.kept_middle_continuation
  pub still_synchronized :
      (has_record rs || s.state.synchronized) ≡ true → (last_scan r).state.synchronized ≡ true

module _ (config : TlsOptions) (reverse_key : DirectionKey) (payload : Span)
    (confirmed : Bool) where
  abbrev advance : RecordHeader → Scan → Scan
  advance h s =
      record (note_candidate config (h.content_type == tls_application_data) (total_size h)
        (note_record reverse_key h.content_type s)) {
          payload_offset = s.payload_offset + total_size h;
        }

  scan_step-advance :
      (h : RecordHeader) (rs : List RecordHeader) (s : Scan)
      → read_tls_record_header payload s.payload_offset ≡ some h
      → s.payload_offset + total_size h ≤ payload.size
      → (s.state.synchronized || confirmed || starts_with_handshake (h ∷ rs)) ≡ true
      → scan_step config reverse_key payload confirmed s ≡ again (advance h s)
  unfolding scan_step scan_round take_record
  scan_step-advance h rs s e fits ok = rw e (ground arith)

  advance-WalksTo :
      (h : RecordHeader) (rs : List RecordHeader) (s : Scan) (r : Round)
      → WalksTo
          (last_cut config.app_data_keep_record_bytes (s.payload_offset + total_size h) rs)
          rs
          (advance h s)
          r
      → WalksTo (last_cut config.app_data_keep_record_bytes s.payload_offset (h ∷ rs)) (h ∷ rs) s r
  unfolding note_record note_candidate
  advance-WalksTo h [] s r w = ground arith
  advance-WalksTo h (g ∷ rs) s r w = ground arith

  advance-calm :
      (h : RecordHeader) (s : Scan)
      → ((advance h s).uncertain ≡ s.uncertain)
        × ((advance h s).reset_direction ≡ s.reset_direction)
        × ((advance h s).state.synchronized ≡ true)
  unfolding note_record note_candidate
  advance-calm h s = ground arith

  pub scan_loop-WalksTo :
      (fuel : ℕ) (rs : List RecordHeader) (s : Scan)
      → Tiles payload s.payload_offset rs
      → payload.size ≤ s.payload_offset + fuel
      → s.uncertain ≡ false
      → s.reset_direction ≡ false
      → (s.state.synchronized || confirmed || starts_with_handshake rs) ≡ true
      → WalksTo
          (last_cut config.app_data_keep_record_bytes s.payload_offset rs)
          rs
          s
          (scan_loop fuel config reverse_key payload confirmed s)
  unfolding scan_loop
  scan_loop-WalksTo zero [] s t f u r ok = ground arith
  scan_loop-WalksTo (suc fuel) [] s (filled e) f u r ok = ground arith
  scan_loop-WalksTo zero (h ∷ rs) s (next e fits t) f u r ok = absurd (omega arith)
  scan_loop-WalksTo (suc fuel) (h ∷ rs) s (next e fits t) f u r ok =
      rw (on, scan_loop, scan_step-advance h rs s e fits ok)
        (advance-WalksTo h rs s _ (
          scan_loop-WalksTo fuel rs (advance h s) t (omega arith) (calm.0 ∙ u) (calm.1 ∙ r)
            (rw calm.2)))
    where
      on : goes_on payload s ≡ true
      on = ground arith

      calm :
          ((advance h s).uncertain ≡ s.uncertain)
          × ((advance h s).reset_direction ≡ s.reset_direction)
          × ((advance h s).state.synchronized ≡ true)
      calm = advance-calm h s
