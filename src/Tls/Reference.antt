-- ===== src/Tls/Reference.antt =====
-- TlsConstrictor::Evaluate against the reference cut of Records.
use pcap_constrictor_win_pac.Base.{
  ℕ, ◌+◌, ◌<◌, ◌≡◌, refl, ◌%◌, ◌^◌, leb, true, false, ◌||◌, List, [], ◌∷◌, Option, none, some,
  arith, if◌then◌else◌,
}
use pcap_constrictor_win_pac.Base.Table.{find_or}
use pcap_constrictor_win_pac.Decode.Types.{PacketDecodeResult, is_tcp}
use pcap_constrictor_win_pac.Policy.Config.{TlsOptions}
use pcap_constrictor_win_pac.Span.{Span, has_bytes, subspan}
use pcap_constrictor_win_pac.Tls.Cases.{evaluate_cases}
use pcap_constrictor_win_pac.Tls.Evaluate.{
  flush, keep_all, conclude, after_scan, start_scan, scan, evaluate, tls_payload,
}
use pcap_constrictor_win_pac.Tls.Records.{
  Tiles, filled, last_cut, has_record, starts_with_handshake, WalksTo, scan_loop-WalksTo,
}
use pcap_constrictor_win_pac.Tls.Scan.{
  RecordHeader, Scan, Round, again, leave, no_record_return, check_sequence, resume_record,
}
use pcap_constrictor_win_pac.Tls.Types.{
  DirectionKey, DirectionState, Directions, TlsConstrictResult, no_application_data,
  app_data_prefix, empty_state, direction_eq, make_direction_key,
}

-- What the source makes of the cut of the last Application Data record.
abbrev pub cut_result : Span → PacketDecodeResult → Option ℕ → TlsConstrictResult
cut_result packet decoded none = keep_all packet no_application_data
cut_result packet decoded (some cut) =
    if leb decoded.transport_payload_length cut
    then keep_all packet no_application_data
    else record {
      disposition = app_data_prefix;
      output_len = (decoded.transport_payload_offset + cut) % 2 ^ 32;
    }

-- The entry of the direction, as the sequence number of the packet leaves it.
abbrev pub entry : Directions → PacketDecodeResult → DirectionState
entry directions decoded =
    check_sequence decoded.tcp_seq (find_or (make_direction_key decoded) empty_state directions)

-- The walk has met the records `rs`, so it is concluded by their cut.
conclude-WalksTo :
    (packet : Span) (decoded : PacketDecodeResult) (k : DirectionKey) (cut : Option ℕ)
    (rs : List RecordHeader) (s : Scan) (r : Round)
    → WalksTo cut rs s r
    → has_record rs ≡ true
    → s.has_candidate ≡ false
    → s.kept_middle_continuation ≡ false
    → (after_scan packet decoded k r).1 ≡ cut_result packet decoded cut
unfolding after_scan conclude
conclude-WalksTo packet decoded k cut rs s (again t) w some_record c m = ground arith
conclude-WalksTo packet decoded k cut rs s (no_record_return e t) w some_record c m = ground arith
conclude-WalksTo packet decoded k none rs s (leave t) w some_record c m = ground arith
conclude-WalksTo packet decoded k (some x) rs s (leave t) w some_record c m = ground arith

Tiles-has_record :
    (payload : Span) (rs : List RecordHeader)
    → Tiles payload 0 rs
    → 0 < payload.size
    → has_record rs ≡ true
Tiles-has_record payload [] (filled e) h = absurd (omega arith)
Tiles-has_record payload (g ∷ rs) t h = refl

abbrev pub fresh_scan : PacketDecodeResult → Directions → Scan
fresh_scan decoded directions = record {
  directions = directions;
  state = entry directions decoded;
  payload_offset = 0;
  candidate_payload_size = decoded.transport_payload_length;
  has_candidate = false;
  uncertain = false;
  reset_direction = false;
  kept_middle_continuation = false;
}

pub start_scan-idle :
    (config : TlsOptions) (decoded : PacketDecodeResult) (directions : Directions)
    → (entry directions decoded).has_active_record ≡ false
    → start_scan config decoded directions ≡ fresh_scan decoded directions
unfolding start_scan resume_record
start_scan-idle config decoded directions idle = rw idle

-- For a TCP payload inside the packet that whole TLS records fill, of a direction with no record
-- under way that is synchronised or known to be TLS, or where the payload starts with a handshake
-- record: the result is the reference's. The packet is cut in its last Application Data record, of
-- which the configured number of bytes is kept; it is kept whole if there is no such record, or
-- nothing behind the cut.
pub evaluate-Tiles :
    (directions : Directions) (packet : Span) (decoded : PacketDecodeResult) (config : TlsOptions)
    (rs : List RecordHeader)
    → is_tcp decoded.transport_protocol ≡ true
    → 0 < decoded.transport_payload_length
    → has_bytes packet decoded.transport_payload_offset decoded.transport_payload_length ≡ true
    → (entry (flush directions decoded) decoded).has_active_record ≡ false
    → ((entry (flush directions decoded) decoded).synchronized
        || (find_or
            (make_direction_key decoded)
            empty_state
            (flush directions decoded)).confirmed_tls
        || starts_with_handshake rs)
      ≡ true
    → Tiles (tls_payload packet decoded) 0 rs
    → (evaluate directions packet decoded config).1
      ≡ cut_result packet decoded (last_cut config.app_data_keep_record_bytes 0 rs)
evaluate-Tiles directions packet decoded config rs tcp long fits idle ok tiles =
    evaluate_cases (λ r. r.1 ≡ cut_result packet decoded cut) directions packet decoded config
      (λ other. absurd (grind arith)) (λ _ empty. absurd (omega arith))
      (λ _ out. absurd (grind arith))
      λ _ _ _.
        conclude-WalksTo packet decoded _ cut rs fresh (scan config packet decoded f) walk
          (Tiles-has_record _ rs tiles (unfold tls_payload subspan in long)) refl refl
  where
    f : Directions
    f = flush directions decoded

    cut : Option ℕ
    cut = last_cut config.app_data_keep_record_bytes 0 rs

    fresh : Scan
    fresh = fresh_scan decoded f

    walk : WalksTo cut rs fresh (scan config packet decoded f)
    walk =
        unfold scan in
        rw (start_scan-idle config decoded f idle) (
          scan_loop-WalksTo config _ (tls_payload packet decoded) _ _ rs fresh tiles (omega arith)
            refl refl ok)
