-- ===== src/Pcap/Bounds.antt =====
-- What PcapReader promises while it reads packets.
use pcap_constrictor_win_pac.Base.{
  ℕ, zero, suc, ◌+◌, ◌-◌, ◌<◌, ◌≤◌, ◌≡◌, refl, ap, ◌∙◌, Option, none, some, [], ◌∷◌, ltb, ◌==◌,
  Bytes, length, arith, Bool-cases, Option-cases, inl, inr, ◌++◌, length-append,
}
use pcap_constrictor_win_pac.Pcap.Fields.{IsPacketHeader, sixteen-IsPacketHeader}
use pcap_constrictor_win_pac.Pcap.Types.{
  PcapPacketRecord, ReadError, truncated_packet_header, captured_exceeds_original,
  truncated_packet_data,
}
use pcap_constrictor_win_pac.Pcap.Reader.{
  PcapReader, read_exact, read_u32, read_data, read_open, read_next,
}

pub read_exact-append :
    (front rest : Bytes) → read_exact (length front) (front ++ rest) ≡ some (front, rest)
unfolding read_exact
read_exact-append [] rest = refl
read_exact-append (b ∷ front) rest = rw (read_exact-append front rest)

-- A read takes a front of the stream of the length asked for.
pub read_exact-split :
    (n : ℕ) (bytes front rest : Bytes)
    → read_exact n bytes ≡ some (front, rest)
    → (bytes ≡ front ++ rest) × (length front ≡ n)
unfolding read_exact
read_exact-split zero bytes front rest h = ground arith
read_exact-split (suc n) [] front rest h = ground arith
read_exact-split (suc n) (b ∷ bytes) front rest h = elim (Option-cases (read_exact n bytes)) [
  | inl e ↦ ground arith
  | inr ((head, tail), e) ↦ ground (arith, read_exact-split n bytes head tail)
]

-- A read succeeds where the stream is long enough.
pub read_exact-none : (n : ℕ) (bytes : Bytes) → read_exact n bytes ≡ none → length bytes < n
unfolding read_exact
read_exact-none zero bytes h = ground arith
read_exact-none (suc n) [] h = ground arith
read_exact-none (suc n) (b ∷ bytes) h = ground (arith, read_exact-none n bytes)

-- The rest of a file starts with a packet's header in the byte order of the file.
pub record Announces (r : PcapReader) (unread : Bytes) (sec fraction captured original : ℕ)
    : Type 0 where
  pub raw : Bytes
  pub behind : Bytes
  pub split : unread ≡ raw ++ behind
  pub header : IsPacketHeader r.global_header.endianness raw sec fraction captured original
  pub sixteen : length raw ≡ 16

-- The ways in which the rest of a file can be no packet.
pub data IsDamage (r : PcapReader) (unread : Bytes) : ReadError → Type 0 where
  short_header :
      0 < length unread
      → length unread < 16
      → IsDamage r unread (truncated_packet_header r.next_input_offset (length unread))
  long_capture :
      (sec fraction captured original : ℕ)
      → Announces r unread sec fraction captured original
      → original < captured
      → IsDamage r unread
          (captured_exceeds_original r.next_packet_index r.next_input_offset captured original)
  short_data :
      (sec fraction captured original available : ℕ)
      → Announces r unread sec fraction captured original
      → captured ≤ original
      → length unread ≡ 16 + available
      → available < captured
      → IsDamage r unread (
          truncated_packet_data r.next_packet_index r.next_input_offset captured available
            (captured - available))

-- What a call of ReadNext does with an open stream whose rest is known.
pub data Outcome (r : PcapReader) (unread : Bytes)
    : PcapReader × Option PcapPacketRecord → Type 0 where
  at_end : length unread ≡ 0 → Outcome r unread (r, none)
  packet :
      (raw bytes rest : Bytes) (after : PcapReader) (p : PcapPacketRecord)
      → unread ≡ raw ++ (bytes ++ rest)
      → length raw ≡ 16
      → IsPacketHeader r.global_header.endianness raw p.ts_sec p.ts_fraction p.captured_length
          p.original_length
      → length bytes ≡ p.captured_length
      → p.bytes ≡ bytes
      → p.header_offset ≡ r.next_input_offset
      → p.data_offset ≡ p.header_offset + 16
      → p.data_offset + p.captured_length ≡ after.next_input_offset
      → p.captured_length ≤ p.original_length
      → p.packet_index ≡ r.next_packet_index
      → after.next_packet_index ≡ r.next_packet_index + 1
      → after.error ≡ none
      → after.stream ≡ some rest
      → after.global_header ≡ r.global_header
      → after.file_size ≡ r.file_size
      → after.next_input_offset + length rest ≡ after.file_size
      → Outcome r unread (after, some p)
  failed :
      (e : ReadError) (after : PcapReader)
      → after.error ≡ some e
      → IsDamage r unread e
      → Outcome r unread (after, none)

read_data-Outcome :
    (r : PcapReader) (unread raw rest : Bytes)
    → r.error ≡ none
    → r.next_input_offset + length unread ≡ r.file_size
    → unread ≡ raw ++ rest
    → length raw ≡ 16
    → Outcome r unread (read_data r raw rest)
unfolding read_data
read_data-Outcome r unread raw rest clean whole split sixteen =
    let e = r.global_header.endianness in
    let sec = read_u32 e raw 0 in
    let fraction = read_u32 e raw 4 in
    let captured = read_u32 e raw 8 in
    let original = read_u32 e raw 12 in
    let header = sixteen-IsPacketHeader e raw sixteen in
    let announced : Announces r unread sec fraction captured original = record {
      raw = raw;
      behind = rest;
      split = split;
      header = header;
      sixteen = sixteen;
    } in
    let remaining = r.file_size - (r.next_input_offset + 16) in
    let sized : length unread ≡ 16 + length rest = ground (arith, length-append raw rest) in
    let left : remaining ≡ length rest = omega arith in
    elim (Bool-cases (ltb original captured)) [
      | inl long ↦
          rw long
            (failed _ _ refl (long_capture sec fraction captured original announced (ground arith)))
      | inr fits ↦ rw fits (elim (Bool-cases (ltb remaining captured)) [
        | inl short ↦ rw short (
            failed _ _ refl (
              short_data sec fraction captured original remaining announced (ground arith)
                (omega arith) (ground arith)))
        | inr long ↦ rw long (elim (Option-cases (read_exact captured rest)) [
          | inl missing ↦ ground (arith, read_exact-none captured rest missing)
          | inr ((bytes, tail), taken) ↦
              let (cut, exact) = read_exact-split captured rest bytes tail taken in
              let total : length rest ≡ length bytes + length tail =
                ground (arith, length-append bytes tail) in
              rw taken (
                packet raw bytes tail _ _ (split ∙ ap (◌++◌ raw) cut) sixteen header exact refl refl
                  refl refl (ground arith) refl refl clean refl refl refl (ground arith))
        ])
      ])
    ]

read_open-Outcome :
    (r : PcapReader) (unread : Bytes)
    → r.error ≡ none
    → r.next_input_offset + length unread ≡ r.file_size
    → Outcome r unread (read_open r unread)
unfolding read_open
read_open-Outcome r unread clean whole =
    let reach : r.file_size - r.next_input_offset ≡ length unread = omega arith in
    elim (Bool-cases (r.next_input_offset == r.file_size)) [
      | inl e ↦ rw e (at_end (ground arith))
      | inr e ↦ rw e (elim (Bool-cases (ltb r.file_size r.next_input_offset)) [
        | inl past ↦ ground arith
        | inr inside ↦ rw inside (elim (Bool-cases (ltb (r.file_size - r.next_input_offset) 16)) [
          | inl short ↦
              rw (short, reach) (failed _ _ refl (short_header (ground arith) (ground arith)))
          | inr long ↦ rw long (elim (Option-cases (read_exact 16 unread)) [
            | inl missing ↦ ground (arith, read_exact-none 16 unread missing)
            | inr ((raw, rest), taken) ↦
                let (cut, exact) = read_exact-split 16 unread raw rest taken in
                rw taken (read_data-Outcome r unread raw rest clean whole cut exact)
          ])
        ])
      ])
    ]

pub read_next_lem :
    (r : PcapReader) (unread : Bytes)
    → r.error ≡ none
    → r.stream ≡ some unread
    → read_next r ≡ read_open r unread
unfolding read_next
read_next_lem r unread clean here = ground arith

-- On an open stream whose unread rest reaches to the end of the file, ReadNext does what the rest
-- says. If it is empty, no packet comes. If it is too short for a header, is a header that
-- announces more captured than original bytes, or a header with fewer bytes behind it than it
-- announces, the error names the damage with its figures. Else the record holds the times and the
-- lengths that the 16-byte header is laid out from, in the byte order of the file, and exactly the
-- captured bytes behind it, and the reader stands behind them, with the rest unread. No other error
-- is possible.
pub read_next-Outcome :
    (r : PcapReader) (unread : Bytes)
    → r.error ≡ none
    → r.stream ≡ some unread
    → r.next_input_offset + length unread ≡ r.file_size
    → Outcome r unread (read_next r)
read_next-Outcome r unread clean here whole =
    rw (read_next_lem r unread clean here) (read_open-Outcome r unread clean whole)
