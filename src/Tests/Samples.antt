-- ===== src/Tests/Samples.antt =====
-- The packets and files of the examples.
use pcap_constrictor_win_pac.Base.{ℕ, true, false, [], ◌∷◌, ◌++◌, Bytes, replicate, refl}
use pcap_constrictor_win_pac.Decode.Types.{
  PacketDecodeResult, empty_result, IpVersion, TransportProtocol, ethernet,
}
use pcap_constrictor_win_pac.Pcap.Types.{SystemClock}
use pcap_constrictor_win_pac.Pcap.Writer.{OutStream, PcapWriter}
use pcap_constrictor_win_pac.Policy.Config.{PolicyConfig, TlsOptions, QuicOptions, default_config}
use pcap_constrictor_win_pac.Policy.Decide.{LiveCapturePolicy}
use pcap_constrictor_win_pac.Policy.Packet.{CapturedPacket, unknown}
use pcap_constrictor_win_pac.Span.{Span, of_list}

-- An Ethernet frame: 14 + 20 + 20 bytes of headers from port 443, and a TLS record of
-- Application Data with eight bytes.
abbrev pub tls_frame : Bytes
tls_frame =
    replicate 12 1
    ++ (8 ∷ 0 ∷ [])
    ++ (0x45 ∷ 0 ∷ 0 ∷ 53 ∷ 0 ∷ 0 ∷ 0 ∷ 0 ∷ 64 ∷ 6 ∷ 0 ∷ 0 ∷ 10 ∷ 0 ∷ 0 ∷ 1 ∷ 10 ∷ 0 ∷ 0 ∷ 2 ∷ [])
    ++ (1 ∷ 187 ∷ 195 ∷ 80 ∷ 0 ∷ 0 ∷ 0 ∷ 7 ∷ 0 ∷ 0 ∷ 0 ∷ 0 ∷ 0x50 ∷ 24 ∷ 0 ∷ 0 ∷ 0 ∷ 0 ∷ 0 ∷ 0 ∷ [])
    ++ (23 ∷ 3 ∷ 3 ∷ 0 ∷ 8 ∷ 9 ∷ 9 ∷ 9 ∷ 9 ∷ 9 ∷ 9 ∷ 9 ∷ 9 ∷ [])

abbrev pub tls_span : Span
tls_span = of_list tls_frame

-- What DecodePacket makes of the frame.
abbrev pub tls_decoded : PacketDecodeResult
tls_decoded = record empty_result {
  success = true;
  ethertype = 0x0800;
  ip_version = IpVersion.ipv4;
  transport_protocol = TransportProtocol.tcp;
  ip_protocol = 6;
  link_header_length = 14;
  network_header_offset = 14;
  network_header_length = 20;
  transport_header_offset = 34;
  transport_header_length = 20;
  transport_payload_offset = 54;
  transport_payload_length = 13;
  src_port = 443;
  dst_port = 50000;
  tcp_seq = 7;
  tcp_flags = 24;
  src_address = 10 ∷ 0 ∷ 0 ∷ 1 ∷ replicate 12 0;
  dst_address = 10 ∷ 0 ∷ 0 ∷ 2 ∷ replicate 12 0;
  address_length = 4;
}

-- The same with a SYN and without payload.
abbrev pub syn_decoded : PacketDecodeResult
syn_decoded = record tls_decoded { transport_payload_length = 0; tcp_flags = 2 }

abbrev pub short_tls : TlsOptions
short_tls = record default_config.tls { app_data_keep_record_bytes = 6 }

-- The payload of a UDP datagram with a QUIC long header that announces the id 7 7.
abbrev pub long_payload : Bytes
long_payload = 0xd0 ∷ 0 ∷ 0 ∷ 0 ∷ 1 ∷ 0 ∷ 2 ∷ 7 ∷ 7 ∷ 3 ∷ 1 ∷ 1 ∷ 1 ∷ []

-- A short header with that id.
abbrev pub short_payload : Bytes
short_payload = 0x40 ∷ 7 ∷ 7 ∷ 5 ∷ 5 ∷ []

abbrev pub udp_span : Bytes → Span
udp_span payload = of_list (replicate 42 0 ++ payload)

abbrev pub udp_decoded : ℕ → PacketDecodeResult
udp_decoded payload_length = record tls_decoded {
  transport_protocol = TransportProtocol.udp;
  ip_protocol = 17;
  transport_header_length = 8;
  transport_payload_offset = 42;
  transport_payload_length = payload_length;
}

abbrev pub short_quic : QuicOptions
short_quic = record default_config.quic { short_header_keep_packet_bytes = 1 }

abbrev pub msvc_clock : SystemClock
msvc_clock = record { tick_ns = 100; ticks_per_us = 10; divides = refl }

abbrev pub captured : Bytes → CapturedPacket
captured bytes = record {
  packet = record { view_data = of_list bytes; captured_len = 67; original_len = 67 };
  timestamp = 25000000;
  ifindex = 0;
  direction = unknown;
  link_type = ethernet;
}

abbrev pub small_config : PolicyConfig
small_config = record default_config {
  general = record { min_saved_bytes_per_packet = 1 };
  tls = short_tls;
  quic = short_quic;
}

abbrev pub fresh_policy : LiveCapturePolicy
fresh_policy = record { config = small_config; directions = []; flows = [] }

abbrev pub all_accepted : OutStream
all_accepted = record { content = []; accepts = λ n. true }

abbrev pub fresh_writer : PcapWriter
fresh_writer = record {
  output = all_accepted;
  snaplen = 65535;
  link_type = ethernet;
  global_header_written = false;
}
