-- ===== src/Pcap/Writer.antt =====
-- writer/PcapWriter.cpp. The output stream is what it has taken so far, with the answer whether it
-- still accepts data when its content has reached a given length.
use pcap_constrictor_win_pac.Base.{
  ℕ, ◌-◌, ◌*◌, ◌/◌, ◌%◌, ◌^◌, max, Bool, true, false, [], ◌∷◌, ◌++◌, ltb, if◌then◌else◌, Bytes,
  length,
}
use pcap_constrictor_win_pac.Decode.Types.{PcapLinkType, null, ethernet}
use pcap_constrictor_win_pac.Pcap.Types.{SystemClock}
use pcap_constrictor_win_pac.Policy.Packet.{CapturedPacket, safe_captured_len}
use pcap_constrictor_win_pac.Span.{copy_bytes}

-- The exceptions of the writer.
pub data WriteError : Type 0 where
  write_failed incl_len_exceeds : WriteError

pub data Written {ℓ} (A : Type ℓ) : Type ℓ where
  ok : A → Written A
  threw : WriteError → Written A

infixl 5 ◌>>=◌
abbrev pub ◌>>=◌ {ℓ κ} : {A : Type ℓ} {B : Type κ} → Written A → (A → Written B) → Written B
ok a >>= f = f a
threw e >>= f = threw e

pub record OutStream : Type 0 where
  pub content : Bytes
  pub accepts : ℕ → Bool

pub record PcapWriter : Type 0 where
  pub output : OutStream
  pub snaplen : ℕ
  pub link_type : PcapLinkType
  pub global_header_written : Bool

abbrev pub link_type_number : PcapLinkType → ℕ
link_type_number null = 0
link_type_number ethernet = 1

unfoldable pub new_writer : OutStream → ℕ → PcapLinkType → PcapWriter
new_writer output snaplen link_type = record {
  output = output;
  snaplen = snaplen;
  link_type = link_type;
  global_header_written = false;
}

unfoldable pub write_bytes : PcapWriter → Bytes → Written PcapWriter
write_bytes w bytes =
    let content = w.output.content ++ bytes in
    if w.output.accepts (length content)
    then ok (record w { output = record { content = content; accepts = w.output.accepts } })
    else threw write_failed

unfoldable pub le16 : ℕ → Bytes
le16 value = value % 256 ∷ value / 256 % 256 ∷ []

unfoldable pub le32 : ℕ → Bytes
le32 value = value % 256 ∷ value / 256 % 256 ∷ value / 65536 % 256 ∷ value / 16777216 % 256 ∷ []

unfoldable pub write_le16 : PcapWriter → ℕ → Written PcapWriter
unfolding write_bytes le16
write_le16 w value = write_bytes w (le16 value)

unfoldable pub write_le32 : PcapWriter → ℕ → Written PcapWriter
unfolding write_bytes le32
write_le32 w value = write_bytes w (le32 value)

unfoldable pub write_header_fields : PcapWriter → Written PcapWriter
unfolding write_le16 write_le32
write_header_fields w = do
  a ← write_le32 w 0xA1B2C3D4
  b ← write_le16 a 2
  c ← write_le16 b 4
  d ← write_le32 c 0
  e ← write_le32 d 0
  f ← write_le32 e w.snaplen
  g ← write_le32 f (link_type_number w.link_type)
  ok (record g { global_header_written = true })

unfoldable pub write_global_header : PcapWriter → Written PcapWriter
unfolding write_header_fields
write_global_header w = if w.global_header_written then ok w else write_header_fields w

-- The time of a packet, in microseconds since the epoch.
unfoldable pub micros : SystemClock → CapturedPacket → ℕ
micros clock p = p.timestamp * clock.tick_ns / 1000

unfoldable pub ts_sec : SystemClock → CapturedPacket → ℕ
ts_sec clock p = micros clock p / 1000000 % 2 ^ 32

unfoldable pub ts_usec : SystemClock → CapturedPacket → ℕ
ts_usec clock p = (micros clock p - micros clock p / 1000000 * 1000000) % 2 ^ 32

unfoldable pub write_fields : SystemClock → PcapWriter → CapturedPacket → ℕ → Written PcapWriter
unfolding write_global_header write_le32 write_bytes micros ts_sec ts_usec
write_fields clock w p incl_len = do
  a ← write_global_header w
  b ← write_le32 a (ts_sec clock p)
  c ← write_le32 b (ts_usec clock p)
  d ← write_le32 c incl_len
  e ← write_le32 d (max p.packet.original_len incl_len)
  write_bytes e (copy_bytes p.packet.view_data 0 incl_len)

unfoldable pub write_packet : SystemClock → PcapWriter → CapturedPacket → ℕ → Written PcapWriter
unfolding write_fields
write_packet clock w p incl_len =
    if ltb (safe_captured_len p.packet) incl_len
    then threw incl_len_exceeds
    else write_fields clock w p incl_len

-- The overload with the whole captured packet.
unfoldable pub write_whole_packet : SystemClock → PcapWriter → CapturedPacket → Written PcapWriter
unfolding write_packet
write_whole_packet clock w p = write_packet clock w p (safe_captured_len p.packet)
