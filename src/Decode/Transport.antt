-- ===== src/Decode/Transport.antt =====
-- CopyAddress, DecodeTcp and DecodeUdp of decode/PacketDecode.cpp.
use pcap_constrictor_win_pac.Base.{
  ℕ, ◌+◌, ◌-◌, ◌*◌, ◌/◌, ◌%◌, not, ◌||◌, ◌++◌, ltb, if◌then◌else◌, Bytes, replicate,
}
use pcap_constrictor_win_pac.Decode.Types.{
  PacketDecodeFailureReason, PacketDecodeResult, TransportProtocol, fail,
}
use pcap_constrictor_win_pac.Span.{Span, byte_at, has_bytes, read_be16, read_be32, copy_bytes}

-- The array is filled with zeros, and `length` bytes are copied to its front.
unfoldable pub copy_address : Span → ℕ → ℕ → Bytes
copy_address packet offset length = copy_bytes packet offset length ++ replicate (16 - length) 0

-- The data offset, in bytes.
unfoldable pub tcp_header_length : Span → ℕ → ℕ
tcp_header_length packet offset = byte_at packet (offset + 12) / 16 * 4 % 256

set_tcp : PacketDecodeResult → Span → ℕ → ℕ → ℕ → PacketDecodeResult
set_tcp r packet transport_offset transport_end header_length = record r {
  transport_protocol = TransportProtocol.tcp;
  transport_header_offset = transport_offset;
  transport_header_length = header_length;
  transport_payload_offset = transport_offset + header_length;
  transport_payload_length = transport_end - (transport_offset + header_length);
  src_port = read_be16 packet transport_offset;
  dst_port = read_be16 packet (transport_offset + 2);
  tcp_seq = read_be32 packet (transport_offset + 4);
  tcp_flags = byte_at packet (transport_offset + 13);
}

unfoldable pub decode_tcp : PacketDecodeResult → Span → ℕ → ℕ → PacketDecodeResult
unfolding set_tcp
decode_tcp r packet transport_offset transport_end =
    let header_length = tcp_header_length packet transport_offset in
    if not (has_bytes packet transport_offset 20) || ltb transport_end (transport_offset + 20)
    then fail r PacketDecodeFailureReason.truncated_tcp_header
    else if ltb header_length 20
    then fail r PacketDecodeFailureReason.invalid_tcp_data_offset
    else if not (has_bytes packet transport_offset header_length)
        || ltb transport_end (transport_offset + header_length)
    then fail r PacketDecodeFailureReason.truncated_tcp_header
    else set_tcp r packet transport_offset transport_end header_length

set_udp : PacketDecodeResult → Span → ℕ → ℕ → PacketDecodeResult
set_udp r packet transport_offset udp_length = record r {
  transport_protocol = TransportProtocol.udp;
  transport_header_offset = transport_offset;
  transport_header_length = 8;
  transport_payload_offset = transport_offset + 8;
  transport_payload_length = udp_length - 8;
  src_port = read_be16 packet transport_offset;
  dst_port = read_be16 packet (transport_offset + 2);
}

unfoldable pub decode_udp : PacketDecodeResult → Span → ℕ → ℕ → PacketDecodeResult
unfolding set_udp
decode_udp r packet transport_offset transport_end =
    let udp_length = read_be16 packet (transport_offset + 4) in
    if not (has_bytes packet transport_offset 8) || ltb transport_end (transport_offset + 8)
    then fail r PacketDecodeFailureReason.truncated_udp_header
    else if ltb udp_length 8
    then fail r PacketDecodeFailureReason.invalid_udp_length
    else if ltb transport_end (transport_offset + udp_length)
    then fail r PacketDecodeFailureReason.truncated_udp_payload
    else set_udp r packet transport_offset udp_length
