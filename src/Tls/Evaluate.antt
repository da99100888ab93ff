-- ===== src/Tls/Evaluate.antt =====
-- TlsConstrictor::Evaluate.
use pcap_constrictor_win_pac.Base.{
  ℕ, ◌+◌, ◌%◌, ◌^◌, Bool, true, false, not, ◌||◌, leb, ◌==◌, if◌then◌else◌, bit_and,
}
use pcap_constrictor_win_pac.Base.Table.{find_or, store, erase}
use pcap_constrictor_win_pac.Decode.Types.{PacketDecodeResult, is_tcp}
use pcap_constrictor_win_pac.Policy.Config.{TlsOptions}
use pcap_constrictor_win_pac.Span.{Span, subspan, has_bytes}
use pcap_constrictor_win_pac.Tls.Scan.{
  Scan, Round, again, leave, no_record_return, advance_tcp_seq, check_sequence, resume_record,
  scan_loop,
}
use pcap_constrictor_win_pac.Tls.Types.{
  TlsConstrictDisposition, TlsConstrictResult, DirectionKey, DirectionState, Directions,
  empty_state, direction_eq, make_direction_key, reverse_direction_key, no_record, malformed,
  no_application_data, app_data_prefix,
}

-- SYN is 0x02, RST is 0x04.
unfoldable pub is_syn_or_rst : ℕ → Bool
is_syn_or_rst tcp_flags = not (bit_and tcp_flags 6 == 0)

-- SYN and RST forget both directions.
unfoldable pub flush : Directions → PacketDecodeResult → Directions
unfolding is_syn_or_rst
flush directions decoded =
    if is_syn_or_rst decoded.tcp_flags
    then erase (reverse_direction_key decoded) (erase (make_direction_key decoded) directions)
    else directions

-- A result that keeps the packet whole.
unfoldable pub keep_all : Span → TlsConstrictDisposition → TlsConstrictResult
keep_all packet disposition = record {
  disposition = disposition;
  output_len = packet.size % 2 ^ 32;
}

-- After a constrictible record ended inside a payload the direction starts afresh, and keeps
-- that it is TLS.
unfoldable pub reset_entry : DirectionKey → DirectionState → Directions → Directions
reset_entry key s directions =
    if s.confirmed_tls
    then store key
        (record empty_state {
          confirmed_tls = true;
          has_seen_application_data = s.has_seen_application_data;
        })
        (erase key directions)
    else erase key directions

-- What follows the loop.
unfoldable pub conclude :
    Span → PacketDecodeResult → DirectionKey → Scan → Directions × TlsConstrictResult
unfolding keep_all reset_entry
conclude packet decoded key s =
    let length = decoded.transport_payload_length in
    let state = record s.state { expected_tcp_seq = advance_tcp_seq decoded.tcp_seq length } in
    let stored = store key state s.directions in
    if s.reset_direction
    then (reset_entry key state stored, keep_all packet no_application_data)
    else if s.uncertain
    then (stored, keep_all packet malformed)
    else if s.kept_middle_continuation
    then (stored, keep_all packet no_application_data)
    else if not state.synchronized || not s.has_candidate || leb length s.candidate_payload_size
    then (stored, keep_all packet (if state.synchronized then no_application_data else no_record))
    else (
      stored,
      record {
        disposition = app_data_prefix;
        output_len = (decoded.transport_payload_offset + s.candidate_payload_size) % 2 ^ 32;
      },
    )

unfoldable pub after_scan :
    Span → PacketDecodeResult → DirectionKey → Round → Directions × TlsConstrictResult
after_scan packet decoded key (again s) = conclude packet decoded key s
after_scan packet decoded key (leave s) = conclude packet decoded key s
after_scan packet decoded key (no_record_return erased s) = (
  if erased then erase key s.directions else store key s.state s.directions,
  keep_all packet no_record,
)

-- The local variables where the walk begins.
unfoldable pub start_scan : TlsOptions → PacketDecodeResult → Directions → Scan
start_scan config decoded directions =
    let size = decoded.transport_payload_length in
    let key = make_direction_key decoded in
    resume_record config size (record {
      directions = directions;
      state = check_sequence decoded.tcp_seq (find_or key empty_state directions);
      payload_offset = 0;
      candidate_payload_size = size;
      has_candidate = false;
      uncertain = false;
      reset_direction = false;
      kept_middle_continuation = false;
    })

unfoldable pub tls_payload : Span → PacketDecodeResult → Span
tls_payload packet decoded =
    subspan packet decoded.transport_payload_offset decoded.transport_payload_length

-- The walk over the records, from `directions_[key]` to the end of the loop.
unfoldable pub scan : TlsOptions → Span → PacketDecodeResult → Directions → Round
scan config packet decoded directions =
    let payload = tls_payload packet decoded in
    scan_loop payload.size config (reverse_direction_key decoded) payload
      (find_or (make_direction_key decoded) empty_state directions).confirmed_tls
      (start_scan config decoded directions)

unfoldable pub evaluate :
    Directions → Span → PacketDecodeResult → TlsOptions → Directions × TlsConstrictResult
unfolding after_scan scan
evaluate directions packet decoded config =
    let flushed = flush directions decoded in
    if not (is_tcp decoded.transport_protocol)
    then (directions, keep_all packet malformed)
    else if decoded.transport_payload_length == 0
    then (flushed, keep_all packet no_application_data)
    else if not (has_bytes packet decoded.transport_payload_offset decoded.transport_payload_length)
    then (flushed, keep_all packet malformed)
    else after_scan packet decoded (make_direction_key decoded) (scan config packet decoded flushed)
