-- ===== src/Pcap/Layout.antt =====
-- What PcapWriter appends to a stream that accepts all data.
use pcap_constrictor_win_pac.Base.{
  ℕ, ◌≤◌, ◌≡◌, max, true, ◌++◌, ltb, Bytes, arith, if◌then◌else◌, Bool-cases, inl, inr,
}
use mathlib.Core.List.{append_assoc}
use pcap_constrictor_win_pac.Decode.Types.{PcapLinkType}
use pcap_constrictor_win_pac.Pcap.Types.{SystemClock}
use pcap_constrictor_win_pac.Pcap.Writer.{
  ok, PcapWriter, link_type_number, write_bytes, le16, le32, write_le16, write_le32,
  write_header_fields, write_global_header, ts_sec, ts_usec, write_fields, write_packet,
}
use pcap_constrictor_win_pac.Policy.Packet.{CapturedPacket, safe_captured_len}
use pcap_constrictor_win_pac.Span.{copy_bytes}

-- The global header, 24 bytes.
abbrev pub header_bytes : ℕ → PcapLinkType → Bytes
header_bytes snaplen link_type =
    le32 0xA1B2C3D4
    ++ (le16 2
        ++ (le16 4 ++ (le32 0 ++ (le32 0 ++ (le32 snaplen ++ le32 (link_type_number link_type))))))

-- A packet: 16 bytes and its data.
abbrev pub packet_bytes : SystemClock → CapturedPacket → ℕ → Bytes
packet_bytes clock p incl_len =
    le32 (ts_sec clock p)
    ++ (le32 (ts_usec clock p)
        ++ (le32 incl_len
            ++ (le32 (max p.packet.original_len incl_len)
                ++ copy_bytes p.packet.view_data 0 incl_len)))

abbrev pub Accepts : PcapWriter → Type 0
Accepts w = (n : ℕ) → w.output.accepts n ≡ true

abbrev pub appended : PcapWriter → Bytes → PcapWriter
appended w bytes = record w {
  output = record { content = w.output.content ++ bytes; accepts = w.output.accepts };
}

write_bytes_lem :
    (w : PcapWriter) (bytes : Bytes) → Accepts w → write_bytes w bytes ≡ ok (appended w bytes)
unfolding write_bytes
write_bytes_lem w bytes a = rw a

-- The header comes once, before everything else.
pub write_global_header_lem :
    (w : PcapWriter)
    → Accepts w
    → write_global_header w ≡ (
        if w.global_header_written
        then ok w
        else ok (record (appended w (header_bytes w.snaplen w.link_type)) {
          global_header_written = true;
        }))
unfolding write_global_header write_header_fields write_le16 write_le32
write_global_header_lem w a = simp (a, append_assoc)

abbrev pub written : SystemClock → PcapWriter → CapturedPacket → ℕ → PcapWriter
written clock w p incl_len =
    if w.global_header_written
    then appended w (packet_bytes clock p incl_len)
    else record (appended w (header_bytes w.snaplen w.link_type ++ packet_bytes clock p incl_len)) {
      global_header_written = true;
    }

-- On a stream that accepts all data, a packet of which no more bytes are to be written than are
-- there is appended whole, after the global header where that has not been written yet.
pub write_packet_lem :
    (clock : SystemClock) (w : PcapWriter) (p : CapturedPacket) (incl_len : ℕ)
    → Accepts w
    → incl_len ≤ safe_captured_len p.packet
    → write_packet clock w p incl_len ≡ ok (written clock w p incl_len)
unfolding write_packet write_fields write_global_header write_header_fields write_le16 write_le32
    write_bytes
write_packet_lem clock w p n a le = elim (Bool-cases (ltb (safe_captured_len p.packet) n)) [
  | inl e ↦ ground arith
  | inr e ↦ rw e elim (Bool-cases w.global_header_written) [
    | inl h ↦ simp (h, a, append_assoc)
    | inr h ↦ simp (h, a, append_assoc)
  ]
]
