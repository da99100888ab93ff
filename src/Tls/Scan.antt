-- ===== src/Tls/Scan.antt =====
-- The walk of TlsConstrictor::Evaluate over the TLS records of one TCP payload.
-- `state` is the entry that the source holds by reference, `directions_[key]`; it is written back
-- to the table where the walk ends. In between the table is read and written for the reverse
-- direction alone; if that is the same entry, the write repeats one made to `state`.
use pcap_constrictor_win_pac.Base.{
  ℕ, zero, suc, ◌+◌, ◌-◌, ◌%◌, ◌^◌, min, Bool, true, false, not, ◌&&◌, ◌||◌, Option, none, some,
  ltb, ◌==◌, if◌then◌else◌,
}
use pcap_constrictor_win_pac.Base.Table.{find_or, store}
use pcap_constrictor_win_pac.Policy.Config.{TlsOptions}
use pcap_constrictor_win_pac.Span.{Span, byte_at, has_bytes, read_be16}
use pcap_constrictor_win_pac.Tls.Types.{
  DirectionKey, DirectionState, Directions, empty_state, direction_eq,
}

abbrev pub tls_handshake : ℕ
tls_handshake = 0x16

abbrev pub tls_application_data : ℕ
tls_application_data = 0x17

-- ChangeCipherSpec, Alert, Handshake, ApplicationData.
unfoldable pub is_tls_content_type : ℕ → Bool
is_tls_content_type content_type =
    content_type == 0x14
    || content_type == 0x15
    || content_type == tls_handshake
    || content_type == tls_application_data

pub record RecordHeader : Type 0 where
  pub content_type : ℕ
  pub record_length : ℕ

unfoldable pub read_tls_record_header : Span → ℕ → Option RecordHeader
unfolding is_tls_content_type
read_tls_record_header payload offset =
    let content_type = byte_at payload offset in
    if not (has_bytes payload offset 5)
    then none
    else if not (is_tls_content_type content_type) || not (byte_at payload (offset + 1) == 3)
    then none
    else some
        (record { content_type = content_type; record_length = read_be16 payload (offset + 3) })

unfoldable pub advance_tcp_seq : ℕ → ℕ → ℕ
advance_tcp_seq seq payload_size = (seq + payload_size % 2 ^ 32) % 2 ^ 32

unfoldable pub clamped_keep_size : ℕ → ℕ → ℕ
clamped_keep_size configured available = min configured available

-- The lambda `clear_active_record`.
unfoldable pub clear_active_record : DirectionState → DirectionState
clear_active_record s = record s {
  has_active_record = false;
  active_record_constrictible = false;
  active_record_content_type = 0;
  active_record_remaining_bytes = 0;
}

-- The local variables of Evaluate.
pub record Scan : Type 0 where
  pub directions : Directions
  pub state : DirectionState
  pub payload_offset : ℕ
  pub candidate_payload_size : ℕ
  pub has_candidate : Bool
  pub uncertain : Bool
  pub reset_direction : Bool
  pub kept_middle_continuation : Bool

-- A sequence number other than the expected one loses the record that was under way.
unfoldable pub check_sequence : ℕ → DirectionState → DirectionState
unfolding clear_active_record
check_sequence tcp_seq s =
    if s.synchronized && not (tcp_seq == s.expected_tcp_seq)
    then record (clear_active_record s) { synchronized = false; expected_tcp_seq = 0 }
    else s

-- The block `if (state.has_active_record)`, for a payload of `size` bytes.
unfoldable pub resume_record : TlsOptions → ℕ → Scan → Scan
unfolding clear_active_record clamped_keep_size
resume_record config size s =
    let state = s.state in
    let remaining = state.active_record_remaining_bytes in
    if not state.has_active_record
    then s
    else if ltb size remaining
    then record s {
      kept_middle_continuation = s.kept_middle_continuation || state.active_record_constrictible;
      state = record state {
        active_record_remaining_bytes = (remaining + 2 ^ 32 - size % 2 ^ 32) % 2 ^ 32;
      };
      payload_offset = size;
    }
    else if remaining == size
    then record s {
      candidate_payload_size =
          if state.active_record_constrictible
          then clamped_keep_size config.app_data_continuation_keep_bytes size
          else s.candidate_payload_size;
      has_candidate = s.has_candidate || state.active_record_constrictible;
      payload_offset = size;
      state = clear_active_record state;
    }
    else record s {
      payload_offset = remaining;
      state = clear_active_record state;
      reset_direction = s.reset_direction || state.active_record_constrictible;
    }

-- What one round of the loop does: it goes on, ends the loop, or returns NoRecord from Evaluate,
-- where the flag says that the direction is erased.
pub data Round : Type 0 where
  again leave : Scan → Round
  no_record_return : Bool → Scan → Round

-- `directions_[reverse_key].confirmed_tls = true`
unfoldable pub confirm : DirectionKey → Directions → Directions
confirm reverse_key directions =
    store reverse_key (record (find_or reverse_key empty_state directions) { confirmed_tls = true })
      directions

-- `state.synchronized = true`, and what a handshake record confirms.
unfoldable pub note_record : DirectionKey → ℕ → Scan → Scan
note_record reverse_key content_type s =
    if content_type == tls_handshake
    then record s {
      state = record s.state { synchronized = true; confirmed_tls = true };
      directions = confirm reverse_key s.directions;
    }
    else record s { state = record s.state { synchronized = true } }

-- `state.has_seen_application_data`, and the new candidate for the cut, for a record that has
-- `available` bytes in this payload.
unfoldable pub note_candidate : TlsOptions → Bool → ℕ → Scan → Scan
unfolding clamped_keep_size
note_candidate config is_app_data available s =
    if is_app_data
    then record s {
      state = record s.state { has_seen_application_data = true };
      candidate_payload_size =
          s.payload_offset + clamped_keep_size config.app_data_keep_record_bytes available;
      has_candidate = true;
    }
    else s

-- A record that goes on behind this payload.
unfoldable pub start_active : ℕ → ℕ → Span → Scan → Scan
start_active content_type missing payload s = record s {
  state = record s.state {
    has_active_record = true;
    active_record_content_type = content_type;
    active_record_remaining_bytes = missing % 2 ^ 32;
    active_record_constrictible = content_type == tls_application_data;
  };
  payload_offset = payload.size;
}

-- The body of the loop behind the two early returns.
unfoldable pub take_record : TlsOptions → DirectionKey → Span → RecordHeader → Scan → Round
unfolding note_record note_candidate start_active
take_record config reverse_key payload header s =
    let total = 5 + header.record_length in
    let remaining = payload.size - s.payload_offset in
    let is_app_data = header.content_type == tls_application_data in
    let noted = note_record reverse_key header.content_type s in
    if ltb remaining total
    then leave (
        start_active header.content_type (total - remaining) payload
          (note_candidate config is_app_data remaining noted))
    else let kept = note_candidate config is_app_data total noted in
      again (record kept { payload_offset = s.payload_offset + total })

-- One round; `confirmed_tls` is the flag as it was before the walk.
unfoldable pub scan_round :
    TlsOptions → DirectionKey → Span → Bool → Option RecordHeader → Scan → Round
unfolding take_record
scan_round config reverse_key payload confirmed_tls none s =
    if not s.state.synchronized
    then no_record_return (not confirmed_tls) s
    else leave (record s { uncertain = true })
scan_round config reverse_key payload confirmed_tls (some header) s =
    if not s.state.synchronized && not (header.content_type == tls_handshake) && not confirmed_tls
    then no_record_return true s
    else take_record config reverse_key payload header s

abbrev pub goes_on : Span → Scan → Bool
goes_on payload s = not s.uncertain && not s.reset_direction && ltb s.payload_offset payload.size

-- One iteration of the loop, whose test has passed.
unfoldable pub scan_step : TlsOptions → DirectionKey → Span → Bool → Scan → Round
unfolding read_tls_record_header scan_round
scan_step config reverse_key payload confirmed_tls s =
    scan_round config reverse_key payload confirmed_tls
      (read_tls_record_header payload s.payload_offset) s

abbrev pub continue_with : (Scan → Round) → Round → Round
continue_with next (again s) = next s
continue_with next (leave s) = leave s
continue_with next (no_record_return erased s) = no_record_return erased s

-- The loop. Each round that goes on passes five bytes at least, so one round for each byte of
-- the payload is enough: when none is left, the loop's test fails.
unfoldable pub scan_loop : ℕ → TlsOptions → DirectionKey → Span → Bool → Scan → Round
unfolding scan_step
scan_loop zero config reverse_key payload confirmed_tls s = leave s
scan_loop (suc fuel) config reverse_key payload confirmed_tls s =
    let rest =
      continue_with (scan_loop fuel config reverse_key payload confirmed_tls)
        (scan_step config reverse_key payload confirmed_tls s) in
    if goes_on payload s then rest else leave s
