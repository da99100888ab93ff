-- ===== src/Loader/Assign.antt =====
-- AssignValue of config/ConfigLoader.cpp, one function for each section.
use pcap_constrictor_win_pac.Base.{ℕ, Option, none, some, Bytes, bytes_beq, if◌then◌else◌, is_empty}
use pcap_constrictor_win_pac.Loader.Text.{trim, to_lower}
use pcap_constrictor_win_pac.Loader.Values.{
  parse_bool, parse_continuation_policy, parse_uint32, parse_uint64, parse_ports,
}
use pcap_constrictor_win_pac.Loader.Words.{
  word_capture, word_general, word_tls, word_quic, word_stats, word_backend, word_interface,
  word_promiscuous, word_output, word_max_packets, word_duration_sec, word_default_snaplen,
  word_max_capture_len, word_read_timeout_ms, word_min_saved_bytes_per_packet, word_enabled,
  word_ports, word_app_data_continuation_policy, word_app_data_keep_record_bytes,
  word_app_data_continuation_keep_bytes, word_require_dcid_match,
  word_allow_short_header_without_known_dcid, word_short_header_keep_packet_bytes, word_npcap,
}
use pcap_constrictor_win_pac.Policy.Config.{
  PolicyConfig, npcap, TlsAppDataContinuationPolicy, final_only,
}

-- The messages of the loader.
pub data ConfigMessage : Type 0 where
  unknown_backend invalid_promiscuous empty_output invalid_capture_integer : ConfigMessage
  unknown_capture_key invalid_general_integer unknown_general_key : ConfigMessage
  invalid_tls_enabled invalid_tls_ports invalid_continuation_policy : ConfigMessage
  unsupported_continuation_policy invalid_tls_integer unknown_tls_key : ConfigMessage
  invalid_quic_boolean invalid_quic_ports invalid_quic_integer unknown_quic_key : ConfigMessage
  unknown_stats_key invalid_stats_enabled unknown_section : ConfigMessage
  unterminated_section empty_section expected_key_value key_before_section : ConfigMessage
  empty_key zero_snaplen zero_max_capture_len : ConfigMessage

pub data Assigned : Type 0 where
  assigned : PolicyConfig → Assigned
  invalid : ConfigMessage → Assigned

-- An assignment of the value that has been parsed, or the message.
abbrev pub assign_parsed {ℓ} : {A : Type ℓ} → ConfigMessage → Option A → (A → Assigned) → Assigned
assign_parsed message none f = invalid message
assign_parsed message (some a) f = f a

unfoldable pub assign_capture_integer : PolicyConfig → Bytes → ℕ → Assigned
assign_capture_integer config key n =
    if bytes_beq key word_default_snaplen
    then assigned (record config { capture = record config.capture { default_snaplen = n } })
    else if bytes_beq key word_max_capture_len
    then assigned (record config { capture = record config.capture { max_capture_len = n } })
    else if bytes_beq key word_read_timeout_ms
    then assigned (record config { capture = record config.capture { read_timeout_ms = n } })
    else invalid unknown_capture_key

unfoldable pub assign_output : PolicyConfig → Bytes → Assigned
assign_output config path =
    if is_empty path
    then invalid empty_output
    else assigned (record config { capture = record config.capture { output = path } })

unfoldable pub assign_capture : PolicyConfig → Bytes → Bytes → Assigned
unfolding assign_capture_integer assign_output
assign_capture config key value =
    if bytes_beq key word_backend
    then (if bytes_beq (to_lower (trim value)) word_npcap
        then assigned (record config { capture = record config.capture { backend = npcap } })
        else invalid unknown_backend)
    else if bytes_beq key word_interface
    then assigned (record config { capture = record config.capture { interface = trim value } })
    else if bytes_beq key word_promiscuous
    then assign_parsed invalid_promiscuous (parse_bool value)
        (λ b. assigned (record config { capture = record config.capture { promiscuous = b } }))
    else if bytes_beq key word_output
    then assign_output config (trim value)
    else if bytes_beq key word_max_packets
    then assign_parsed invalid_capture_integer (parse_uint64 value)
        (λ n. assigned (record config { capture = record config.capture { max_packets = n } }))
    else if bytes_beq key word_duration_sec
    then assign_parsed invalid_capture_integer (parse_uint64 value)
        (λ n. assigned (record config { capture = record config.capture { duration_sec = n } }))
    else assign_parsed invalid_capture_integer (parse_uint32 value)
        (assign_capture_integer config key)

unfoldable pub assign_general : PolicyConfig → Bytes → Bytes → Assigned
assign_general config key value = assign_parsed invalid_general_integer (parse_uint32 value) (λ n.
    if bytes_beq key word_min_saved_bytes_per_packet
    then assigned
        (record config { general = record config.general { min_saved_bytes_per_packet = n } })
    else invalid unknown_general_key)

unfoldable pub assign_policy : PolicyConfig → TlsAppDataContinuationPolicy → Assigned
assign_policy config final_only =
    assigned
      (record config { tls = record config.tls { app_data_continuation_policy = final_only } })
assign_policy config _ = invalid unsupported_continuation_policy

unfoldable pub assign_tls_integer : PolicyConfig → Bytes → ℕ → Assigned
assign_tls_integer config key n =
    if bytes_beq key word_app_data_keep_record_bytes
    then assigned (record config { tls = record config.tls { app_data_keep_record_bytes = n } })
    else if bytes_beq key word_app_data_continuation_keep_bytes
    then assigned
        (record config { tls = record config.tls { app_data_continuation_keep_bytes = n } })
    else invalid unknown_tls_key

unfoldable pub assign_tls : PolicyConfig → Bytes → Bytes → Assigned
unfolding assign_policy assign_tls_integer
assign_tls config key value =
    if bytes_beq key word_enabled
    then assign_parsed invalid_tls_enabled (parse_bool value)
        (λ b. assigned (record config { tls = record config.tls { enabled = b } }))
    else if bytes_beq key word_ports
    then assign_parsed invalid_tls_ports (parse_ports value)
        (λ ports. assigned (record config { tls = record config.tls { ports = ports } }))
    else if bytes_beq key word_app_data_continuation_policy
    then assign_parsed invalid_continuation_policy (parse_continuation_policy value)
        (assign_policy config)
    else assign_parsed invalid_tls_integer (parse_uint32 value) (assign_tls_integer config key)

unfoldable pub assign_quic_integer : PolicyConfig → Bytes → ℕ → Assigned
assign_quic_integer config key n =
    if bytes_beq key word_short_header_keep_packet_bytes
    then assigned
        (record config { quic = record config.quic { short_header_keep_packet_bytes = n } })
    else invalid unknown_quic_key

unfoldable pub assign_quic : PolicyConfig → Bytes → Bytes → Assigned
unfolding assign_quic_integer
assign_quic config key value =
    if bytes_beq key word_enabled
    then assign_parsed invalid_quic_boolean (parse_bool value)
        (λ b. assigned (record config { quic = record config.quic { enabled = b } }))
    else if bytes_beq key word_require_dcid_match
    then assign_parsed invalid_quic_boolean (parse_bool value)
        (λ b. assigned (record config { quic = record config.quic { require_dcid_match = b } }))
    else if bytes_beq key word_allow_short_header_without_known_dcid
    then assign_parsed invalid_quic_boolean (parse_bool value) (λ b.
      assigned
        (record config { quic = record config.quic { allow_short_header_without_known_dcid = b } }))
    else if bytes_beq key word_ports
    then assign_parsed invalid_quic_ports (parse_ports value)
        (λ ports. assigned (record config { quic = record config.quic { ports = ports } }))
    else assign_parsed invalid_quic_integer (parse_uint32 value) (assign_quic_integer config key)

unfoldable pub assign_stats : PolicyConfig → Bytes → Bytes → Assigned
assign_stats config key value =
    if bytes_beq key word_enabled
    then assign_parsed invalid_stats_enabled (parse_bool value)
        (λ b. assigned (record config { stats = record config.stats { enabled = b } }))
    else invalid unknown_stats_key

unfoldable pub assign_value : PolicyConfig → Bytes → Bytes → Bytes → Assigned
assign_value config section key value =
    let section = to_lower section in
    let key = to_lower key in
    if bytes_beq section word_capture
    then assign_capture config key value
    else if bytes_beq section word_general
    then assign_general config key value
    else if bytes_beq section word_tls
    then assign_tls config key value
    else if bytes_beq section word_quic
    then assign_quic config key value
    else if bytes_beq section word_stats
    then assign_stats config key value
    else invalid unknown_section
