-- ===== src/Loader/Words.antt =====
-- The words of a configuration file: the names of sections, keys and values.
use pcap_constrictor_win_pac.Base.{Bytes, [], ◌∷◌}

abbrev pub word_capture : Bytes
word_capture = b'c' ∷ b'a' ∷ b'p' ∷ b't' ∷ b'u' ∷ b'r' ∷ b'e' ∷ []

abbrev pub word_general : Bytes
word_general = b'g' ∷ b'e' ∷ b'n' ∷ b'e' ∷ b'r' ∷ b'a' ∷ b'l' ∷ []

abbrev pub word_tls : Bytes
word_tls = b't' ∷ b'l' ∷ b's' ∷ []

abbrev pub word_quic : Bytes
word_quic = b'q' ∷ b'u' ∷ b'i' ∷ b'c' ∷ []

abbrev pub word_stats : Bytes
word_stats = b's' ∷ b't' ∷ b'a' ∷ b't' ∷ b's' ∷ []

abbrev pub word_backend : Bytes
word_backend = b'b' ∷ b'a' ∷ b'c' ∷ b'k' ∷ b'e' ∷ b'n' ∷ b'd' ∷ []

abbrev pub word_interface : Bytes
word_interface = b'i' ∷ b'n' ∷ b't' ∷ b'e' ∷ b'r' ∷ b'f' ∷ b'a' ∷ b'c' ∷ b'e' ∷ []

abbrev pub word_promiscuous : Bytes
word_promiscuous = b'p' ∷ b'r' ∷ b'o' ∷ b'm' ∷ b'i' ∷ b's' ∷ b'c' ∷ b'u' ∷ b'o' ∷ b'u' ∷ b's' ∷ []

abbrev pub word_output : Bytes
word_output = b'o' ∷ b'u' ∷ b't' ∷ b'p' ∷ b'u' ∷ b't' ∷ []

abbrev pub word_max_packets : Bytes
word_max_packets = b'm' ∷ b'a' ∷ b'x' ∷ b'_' ∷ b'p' ∷ b'a' ∷ b'c' ∷ b'k' ∷ b'e' ∷ b't' ∷ b's' ∷ []

abbrev pub word_duration_sec : Bytes
word_duration_sec =
    b'd' ∷ b'u' ∷ b'r' ∷ b'a' ∷ b't' ∷ b'i' ∷ b'o' ∷ b'n' ∷ b'_' ∷ b's' ∷ b'e' ∷ b'c' ∷ []

abbrev pub word_default_snaplen : Bytes
word_default_snaplen =
    b'd' ∷ b'e' ∷ b'f' ∷ b'a' ∷ b'u' ∷ b'l' ∷ b't' ∷ b'_' ∷ b's' ∷ b'n' ∷ b'a' ∷ b'p' ∷ b'l' ∷ b'e'
    ∷ b'n' ∷ []

abbrev pub word_max_capture_len : Bytes
word_max_capture_len =
    b'm' ∷ b'a' ∷ b'x' ∷ b'_' ∷ b'c' ∷ b'a' ∷ b'p' ∷ b't' ∷ b'u' ∷ b'r' ∷ b'e' ∷ b'_' ∷ b'l' ∷ b'e'
    ∷ b'n' ∷ []

abbrev pub word_read_timeout_ms : Bytes
word_read_timeout_ms =
    b'r' ∷ b'e' ∷ b'a' ∷ b'd' ∷ b'_' ∷ b't' ∷ b'i' ∷ b'm' ∷ b'e' ∷ b'o' ∷ b'u' ∷ b't' ∷ b'_' ∷ b'm'
    ∷ b's' ∷ []

abbrev pub word_min_saved_bytes_per_packet : Bytes
word_min_saved_bytes_per_packet =
    b'm' ∷ b'i' ∷ b'n' ∷ b'_' ∷ b's' ∷ b'a' ∷ b'v' ∷ b'e' ∷ b'd' ∷ b'_' ∷ b'b' ∷ b'y' ∷ b't' ∷ b'e'
    ∷ b's' ∷ b'_' ∷ b'p' ∷ b'e' ∷ b'r' ∷ b'_' ∷ b'p' ∷ b'a' ∷ b'c' ∷ b'k' ∷ b'e' ∷ b't' ∷ []

abbrev pub word_enabled : Bytes
word_enabled = b'e' ∷ b'n' ∷ b'a' ∷ b'b' ∷ b'l' ∷ b'e' ∷ b'd' ∷ []

abbrev pub word_ports : Bytes
word_ports = b'p' ∷ b'o' ∷ b'r' ∷ b't' ∷ b's' ∷ []

abbrev pub word_app_data_continuation_policy : Bytes
word_app_data_continuation_policy =
    b'a' ∷ b'p' ∷ b'p' ∷ b'_' ∷ b'd' ∷ b'a' ∷ b't' ∷ b'a' ∷ b'_' ∷ b'c' ∷ b'o' ∷ b'n' ∷ b't' ∷ b'i'
    ∷ b'n' ∷ b'u' ∷ b'a' ∷ b't' ∷ b'i' ∷ b'o' ∷ b'n' ∷ b'_' ∷ b'p' ∷ b'o' ∷ b'l' ∷ b'i' ∷ b'c'
    ∷ b'y' ∷ []

abbrev pub word_app_data_keep_record_bytes : Bytes
word_app_data_keep_record_bytes =
    b'a' ∷ b'p' ∷ b'p' ∷ b'_' ∷ b'd' ∷ b'a' ∷ b't' ∷ b'a' ∷ b'_' ∷ b'k' ∷ b'e' ∷ b'e' ∷ b'p' ∷ b'_'
    ∷ b'r' ∷ b'e' ∷ b'c' ∷ b'o' ∷ b'r' ∷ b'd' ∷ b'_' ∷ b'b' ∷ b'y' ∷ b't' ∷ b'e' ∷ b's' ∷ []

abbrev pub word_app_data_continuation_keep_bytes : Bytes
word_app_data_continuation_keep_bytes =
    b'a' ∷ b'p' ∷ b'p' ∷ b'_' ∷ b'd' ∷ b'a' ∷ b't' ∷ b'a' ∷ b'_' ∷ b'c' ∷ b'o' ∷ b'n' ∷ b't' ∷ b'i'
    ∷ b'n' ∷ b'u' ∷ b'a' ∷ b't' ∷ b'i' ∷ b'o' ∷ b'n' ∷ b'_' ∷ b'k' ∷ b'e' ∷ b'e' ∷ b'p' ∷ b'_'
    ∷ b'b' ∷ b'y' ∷ b't' ∷ b'e' ∷ b's' ∷ []

abbrev pub word_require_dcid_match : Bytes
word_require_dcid_match =
    b'r' ∷ b'e' ∷ b'q' ∷ b'u' ∷ b'i' ∷ b'r' ∷ b'e' ∷ b'_' ∷ b'd' ∷ b'c' ∷ b'i' ∷ b'd' ∷ b'_' ∷ b'm'
    ∷ b'a' ∷ b't' ∷ b'c' ∷ b'h' ∷ []

abbrev pub word_allow_short_header_without_known_dcid : Bytes
word_allow_short_header_without_known_dcid =
    b'a' ∷ b'l' ∷ b'l' ∷ b'o' ∷ b'w' ∷ b'_' ∷ b's' ∷ b'h' ∷ b'o' ∷ b'r' ∷ b't' ∷ b'_' ∷ b'h' ∷ b'e'
    ∷ b'a' ∷ b'd' ∷ b'e' ∷ b'r' ∷ b'_' ∷ b'w' ∷ b'i' ∷ b't' ∷ b'h' ∷ b'o' ∷ b'u' ∷ b't' ∷ b'_'
    ∷ b'k' ∷ b'n' ∷ b'o' ∷ b'w' ∷ b'n' ∷ b'_' ∷ b'd' ∷ b'c' ∷ b'i' ∷ b'd' ∷ []

abbrev pub word_short_header_keep_packet_bytes : Bytes
word_short_header_keep_packet_bytes =
    b's' ∷ b'h' ∷ b'o' ∷ b'r' ∷ b't' ∷ b'_' ∷ b'h' ∷ b'e' ∷ b'a' ∷ b'd' ∷ b'e' ∷ b'r' ∷ b'_' ∷ b'k'
    ∷ b'e' ∷ b'e' ∷ b'p' ∷ b'_' ∷ b'p' ∷ b'a' ∷ b'c' ∷ b'k' ∷ b'e' ∷ b't' ∷ b'_' ∷ b'b' ∷ b'y'
    ∷ b't' ∷ b'e' ∷ b's' ∷ []

abbrev pub word_npcap : Bytes
word_npcap = b'n' ∷ b'p' ∷ b'c' ∷ b'a' ∷ b'p' ∷ []

abbrev pub word_true : Bytes
word_true = b't' ∷ b'r' ∷ b'u' ∷ b'e' ∷ []

abbrev pub word_false : Bytes
word_false = b'f' ∷ b'a' ∷ b'l' ∷ b's' ∷ b'e' ∷ []

abbrev pub word_one : Bytes
word_one = b'1' ∷ []

abbrev pub word_zero : Bytes
word_zero = b'0' ∷ []

abbrev pub word_final_only : Bytes
word_final_only = b'f' ∷ b'i' ∷ b'n' ∷ b'a' ∷ b'l' ∷ b'_' ∷ b'o' ∷ b'n' ∷ b'l' ∷ b'y' ∷ []

abbrev pub word_stream : Bytes
word_stream = b's' ∷ b't' ∷ b'r' ∷ b'e' ∷ b'a' ∷ b'm' ∷ []

abbrev pub word_bulk : Bytes
word_bulk = b'b' ∷ b'u' ∷ b'l' ∷ b'k' ∷ []
