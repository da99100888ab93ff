-- ===== src/Pcap/Whole.antt =====
-- A whole capture file, as PcapWriter leaves it and PcapReader delivers it.
use pcap_constrictor_win_pac.Base.{
  ℕ, zero, suc, ◌+◌, ◌<◌, ◌≡◌, refl, ap, ◌∙◌, ◌^◌, true, none, some, List, [], ◌∷◌, ◌++◌, Bytes,
  length, arith, ◌==◌, length-append,
}
use pcap_constrictor_win_pac.Decode.Types.{ethernet}
use pcap_constrictor_win_pac.Pcap.Layout.{header_bytes, packet_bytes}
use pcap_constrictor_win_pac.Pcap.Reader.{PcapReader, open_reader, read_next, read_open}
use pcap_constrictor_win_pac.Pcap.Bounds.{read_next_lem}
use pcap_constrictor_win_pac.Pcap.RoundTrip.{
  opened, reread, advanced, open_reader-header_bytes, read_next-packet_bytes,
}
use pcap_constrictor_win_pac.Pcap.Types.{SystemClock, PcapPacketRecord, little}
use pcap_constrictor_win_pac.Pcap.Writer.{le16, le32}
use pcap_constrictor_win_pac.Policy.Packet.{CapturedPacket}
use pcap_constrictor_win_pac.Span.Locality.{length-copy_bytes}

-- Packets with the number of their bytes that are written.
abbrev pub Emitted : Type 0
Emitted = List (CapturedPacket × ℕ)

abbrev pub body : SystemClock → Emitted → Bytes
body clock [] = []
body clock ((p, incl_len) ∷ es) = packet_bytes clock p incl_len ++ body clock es

-- The lengths fit the 32-bit fields of a packet header.
pub data AllFit : Emitted → Type 0 where
  fits_nil : AllFit []
  fits_cons :
      {p : CapturedPacket} {incl_len : ℕ} {es : Emitted}
      → incl_len < 2 ^ 32
      → p.packet.original_len < 2 ^ 32
      → AllFit es
      → AllFit ((p, incl_len) ∷ es)

-- The calls of ReadNext up to the first that delivers no record, at most `fuel`.
abbrev pub read_all : ℕ → PcapReader → PcapReader × List PcapPacketRecord
read_all zero r = (r, [])
read_all (suc fuel) r =
    let (after, found) = read_next r in
    elim found [
      | none ↦ (after, [])
      | some p ↦ (let (end, ps) = read_all fuel after in (end, p ∷ ps))
    ]

-- The records of packets that were written, with the reader that has delivered them.
abbrev pub reread_all : SystemClock → PcapReader → Emitted → PcapReader × List PcapPacketRecord
reread_all clock r [] = (r, [])
reread_all clock r ((p, incl_len) ∷ es) =
    let (end, ps) = reread_all clock (advanced r incl_len (body clock es)) es in
    (end, reread clock r p incl_len ∷ ps)

length-packet_bytes :
    (clock : SystemClock) (p : CapturedPacket) (n : ℕ) → length (packet_bytes clock p n) ≡ 16 + n
unfolding le32
length-packet_bytes clock p n = ground (arith, length-copy_bytes p.packet.view_data 0 n)

read_all_step :
    (fuel : ℕ) (r after : PcapReader) (p : PcapPacketRecord)
    → read_next r ≡ (after, some p)
    → read_all (suc fuel) r ≡ ((read_all fuel after).0, p ∷ (read_all fuel after).1)
read_all_step fuel r after p e = rw (e, read_all, e) refl

read_all_end :
    (fuel : ℕ) (r : PcapReader) → read_next r ≡ (r, none) → read_all (suc fuel) r ≡ (r, [])
read_all_end fuel r e = rw (e, read_all, e) refl

read_next_end :
    (r : PcapReader)
    → r.error ≡ none
    → r.stream ≡ some []
    → r.next_input_offset + 0 ≡ r.file_size
    → read_next r ≡ (r, none)
unfolding read_open
read_next_end r clean here whole =
    let last : (r.next_input_offset == r.file_size) ≡ true = ground arith in
    read_next_lem r [] clean here ∙ rw last refl

read_all-body :
    (clock : SystemClock) (es : Emitted) (r : PcapReader)
    → AllFit es
    → r.error ≡ none
    → r.global_header.endianness ≡ little
    → r.stream ≡ some (body clock es)
    → r.next_input_offset + length (body clock es) ≡ r.file_size
    → read_all (suc (length es)) r ≡ reread_all clock r es
read_all-body clock [] r fits clean order here whole =
    read_all_end 0 r (read_next_end r clean here whole)
read_all-body clock ((p, n) ∷ es) r (fits_cons a b fits) clean order here whole =
    let tail = body clock es in
    let size : length (body clock ((p, n) ∷ es)) ≡ 16 + n + length tail =
      ground (arith, length-append (packet_bytes clock p n) tail, length-packet_bytes clock p n) in
    let first : read_next r ≡ (advanced r n tail, some (reread clock r p n)) =
      read_next-packet_bytes clock r p n tail a b clean order here (ground arith) in
    let rest : read_all (suc (length es)) (advanced r n tail)
        ≡ reread_all clock (advanced r n tail) es =
      read_all-body clock es (advanced r n tail) fits clean order refl (ground arith) in
    read_all_step (suc (length es)) r _ _ first
    ∙ ap (λ (o : PcapReader × List PcapPacketRecord). (o.0, reread clock r p n ∷ o.1)) rest

reread_all_error :
    (clock : SystemClock) (r : PcapReader) (es : Emitted)
    → r.error ≡ none
    → (reread_all clock r es).0.error ≡ none
reread_all_error clock r [] clean = clean
reread_all_error clock r ((p, n) ∷ es) clean =
    reread_all_error clock (advanced r n (body clock es)) es clean

length-reread_all :
    (clock : SystemClock) (r : PcapReader) (es : Emitted)
    → length (reread_all clock r es).1 ≡ length es
length-reread_all clock r [] = refl
length-reread_all clock r ((p, n) ∷ es) =
    ap suc (length-reread_all clock (advanced r n (body clock es)) es)

-- A file below 2^64 bytes that consists of PcapWriter's global header, with a snap length that is
-- not 0 and fits 32 bits, and of packets as PcapWriter lays them out, with lengths that fit 32
-- bits, is read back whole: PcapReader opens it, delivers every packet in order, with its seconds
-- and microseconds, its lengths and its bytes, then ends without an error.
pub read_all-header_bytes :
    (clock : SystemClock) (reader : PcapReader) (snaplen : ℕ) (es : Emitted)
    → 0 < snaplen
    → snaplen < 2 ^ 32
    → AllFit es
    → length (header_bytes snaplen ethernet ++ body clock es) < 2 ^ 64
    → let file = header_bytes snaplen ethernet ++ body clock es in
      let r = opened snaplen (length file) (body clock es) in
      (open_reader reader (record { reported_size = some (length file); content = some file })
        ≡ (r, true))
      × (read_all (suc (length es)) r ≡ reread_all clock r es)
      × ((reread_all clock r es).0.error ≡ none)
      × (length (reread_all clock r es).1 ≡ length es)
unfolding le16 le32
read_all-header_bytes clock reader snaplen es pos fits all small = (
  open_reader-header_bytes reader snaplen _ (body clock es) pos fits small,
  read_all-body clock es _ all refl refl refl (ground arith),
  reread_all_error clock _ es refl,
  length-reread_all clock _ es,
)
