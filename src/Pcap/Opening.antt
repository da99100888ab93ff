-- ===== src/Pcap/Opening.antt =====
-- What PcapReader promises when it opens a file.
use pcap_constrictor_win_pac.Base.{
  ℕ, ◌+◌, ◌-◌, ◌<◌, ◌≤◌, ◌≢◌, ◌≡◌, ◌++◌, bytes_beq_iff, ◌∷◌, [], not, ◌||◌, Option, ap, ◌∙◌, subst,
  refl, Bool, true, false, none, some, ltb, ◌==◌, Bytes, length, arith, Bool-cases, Option-cases,
  inl, inr, ◌⊎◌, length-append, take, ◌^◌,
}
use pcap_constrictor_win_pac.Pcap.Types.{
  ReadError, PcapEndianness, little, big, PcapTimePrecision, microsecond, nanosecond, empty_header,
  ClassicPcapGlobalHeader, pcapng_unsupported, bad_magic, zero_snaplen, bad_version, bad_link_type,
  too_large, truncated_global_header,
}
use pcap_constrictor_win_pac.Pcap.Reader.{
  PcapReader, read_exact, read_u32, open_reader, open_content, open_header, clear, check_header,
  detect_magic, parse_header,
}
use pcap_constrictor_win_pac.Pcap.Fields.{
  u32_bytes, magic_bytes, cells, IsGlobalHeader, all-IsGlobalHeader, first_cells,
}
use pcap_constrictor_win_pac.Pcap.Bounds.{read_exact-split, read_exact-none}

-- A reader that stands behind the global header of a file, of which it holds the byte order, the
-- precision of the times and the snap length.
pub record IsOpen (content : Bytes) (r : PcapReader) : Type 0 where
  pub raw : Bytes
  pub unread : Bytes
  pub split : content ≡ raw ++ unread
  pub long : length raw ≡ 24
  pub magic : take 4 raw ≡ magic_bytes r.global_header.endianness r.global_header.time_precision
  pub header : IsGlobalHeader r.global_header.endianness raw 2 4 r.global_header.snaplen 1
  pub some_snaplen : r.global_header.snaplen ≢ 0
  pub rest : r.stream ≡ some unread
  pub no_error : r.error ≡ none
  pub at_first : r.next_packet_index ≡ 0
  pub behind_header : r.next_input_offset ≡ 24
  pub to_the_end : r.next_input_offset + length unread ≡ r.file_size
  pub sized : r.file_size ≡ length content
  pub addressable : length content < 2 ^ 64

-- Why a file is none that the reader can read; with 24 bytes, by these.
pub data IsForeign (raw : Bytes) : ReadError → Type 0 where
  next_generation : cells (take 4 raw) ≡ u32_bytes big 0x0A0D0D0A → IsForeign raw pcapng_unsupported
  other_magic :
      ((order : PcapEndianness) (precision : PcapTimePrecision)
        → take 4 raw ≢ magic_bytes order precision)
      → IsForeign raw bad_magic
  other_version :
      (order : PcapEndianness) (precision : PcapTimePrecision) (major minor snaplen link : ℕ)
      → take 4 raw ≡ magic_bytes order precision
      → IsGlobalHeader order raw major minor snaplen link
      → (major ≢ 2) ⊎ (minor ≢ 4)
      → IsForeign raw (bad_version major minor)
  no_snaplen :
      (order : PcapEndianness) (precision : PcapTimePrecision) (link : ℕ)
      → take 4 raw ≡ magic_bytes order precision
      → IsGlobalHeader order raw 2 4 0 link
      → IsForeign raw zero_snaplen
  other_link :
      (order : PcapEndianness) (precision : PcapTimePrecision) (snaplen link : ℕ)
      → take 4 raw ≡ magic_bytes order precision
      → IsGlobalHeader order raw 2 4 snaplen link
      → snaplen ≢ 0
      → link ≢ 1
      → IsForeign raw (bad_link_type link)

pub data IsRefusal (content : Bytes) : ReadError → Type 0 where
  oversized : 2 ^ 64 ≤ length content → IsRefusal content too_large
  short : length content < 24 → IsRefusal content truncated_global_header
  foreign :
      (raw rest : Bytes) {e : ReadError}
      → content ≡ raw ++ rest
      → length raw ≡ 24
      → IsForeign raw e
      → IsRefusal content e

-- Open leaves a reader that can deliver packets, or an error.
pub data Opening (content : Bytes) : PcapReader × Bool → Type 0 where
  opened : (r : PcapReader) → IsOpen content r → Opening content (r, true)
  refused :
      (e : ReadError) (r : PcapReader)
      → r.error ≡ some e
      → r.stream ≡ none
      → IsRefusal content e
      → Opening content (r, false)

-- The magic of a result.
abbrev announced : Bytes → Option (PcapEndianness × PcapTimePrecision) → Bytes
announced m none = m
announced m (some (order, precision)) = magic_bytes order precision

detect_magic-some :
    (m : Bytes) {order : PcapEndianness} {precision : PcapTimePrecision}
    → detect_magic m ≡ some (order, precision)
    → m ≡ magic_bytes order precision
unfolding detect_magic
detect_magic-some m {order} {precision} e = ground (
  arith,
  bytes_beq_iff m (0xd4 ∷ 0xc3 ∷ 0xb2 ∷ 0xa1 ∷ []),
  bytes_beq_iff m (0xa1 ∷ 0xb2 ∷ 0xc3 ∷ 0xd4 ∷ []),
  bytes_beq_iff m (0x4d ∷ 0x3c ∷ 0xb2 ∷ 0xa1 ∷ []),
  bytes_beq_iff m (0xa1 ∷ 0xb2 ∷ 0x3c ∷ 0x4d ∷ []),
  ap (announced m) e,
)

detect_magic-none :
    (m : Bytes) (order : PcapEndianness) (precision : PcapTimePrecision)
    → detect_magic m ≡ none
    → m ≢ magic_bytes order precision
unfolding detect_magic
detect_magic-none m little microsecond e same =
    ground (arith, bytes_beq_iff m (0xd4 ∷ 0xc3 ∷ 0xb2 ∷ 0xa1 ∷ []))
detect_magic-none m big microsecond e same =
    ground (arith, bytes_beq_iff m (0xa1 ∷ 0xb2 ∷ 0xc3 ∷ 0xd4 ∷ []))
detect_magic-none m little nanosecond e same =
    ground (arith, bytes_beq_iff m (0x4d ∷ 0x3c ∷ 0xb2 ∷ 0xa1 ∷ []))
detect_magic-none m big nanosecond e same =
    ground (arith, bytes_beq_iff m (0xa1 ∷ 0xb2 ∷ 0x3c ∷ 0x4d ∷ []))

-- The checks behind a known magic, on the fields as they are laid out.
check_header-cases :
    (raw : Bytes) (order : PcapEndianness) (precision : PcapTimePrecision)
    (h : ClassicPcapGlobalHeader)
    → take 4 raw ≡ magic_bytes order precision
    → IsGlobalHeader order raw h.version_major h.version_minor h.snaplen h.link_type
    → ((check_header h ≡ none) × IsGlobalHeader order raw 2 4 h.snaplen 1 × (h.snaplen ≢ 0))
      ⊎ ((e : ReadError) × (check_header h ≡ some e) × IsForeign raw e)
unfolding check_header
check_header-cases raw order precision h magic fields =
    elim (Bool-cases (not (h.version_major == 2) || not (h.version_minor == 4))) [
      | inl other ↦
          rw other
            (inr (_, refl, other_version order precision _ _ _ _ magic fields (ground arith)))
      | inr known ↦
          let major : h.version_major ≡ 2 = ground arith in
          let minor : h.version_minor ≡ 4 = ground arith in
          let versions : IsGlobalHeader order raw 2 4 h.snaplen h.link_type =
            subst (λ v. IsGlobalHeader order raw v 4 h.snaplen h.link_type) major
              (subst (λ v. IsGlobalHeader order raw h.version_major v h.snaplen h.link_type) minor
                fields) in
          rw known (elim (Bool-cases (h.snaplen == 0)) [
            | inl empty ↦
                let zeroed : h.snaplen ≡ 0 = ground arith in
                rw empty (
                  inr (
                    _,
                    refl,
                    no_snaplen order precision h.link_type magic
                        (subst (λ v. IsGlobalHeader order raw 2 4 v h.link_type) zeroed versions),
                  ))
            | inr some_snaplen ↦ rw some_snaplen (elim (Bool-cases (h.link_type == 1)) [
              | inl ethernet ↦
                  let one : h.link_type ≡ 1 = ground arith in
                  rw ethernet (
                    inl (
                      refl,
                      subst (λ v. IsGlobalHeader order raw 2 4 h.snaplen v) one versions,
                      ground arith,
                    ))
              | inr other ↦ rw other (
                  inr (
                    _,
                    refl,
                    other_link order precision _ _ magic versions (ground arith) (ground arith),
                  ))
            ])
          ])
    ]

open_header-Opening :
    (r : PcapReader) (content raw rest : Bytes)
    → r.error ≡ none
    → r.next_packet_index ≡ 0
    → 24 + length rest ≡ r.file_size
    → r.file_size ≡ length content
    → length content < 2 ^ 64
    → content ≡ raw ++ rest
    → length raw ≡ 24
    → Opening content (open_header r raw rest)
unfolding open_header parse_header
open_header-Opening r content raw rest clean first whole sized small split long =
    elim (Bool-cases (read_u32 big raw 0 == 0x0A0D0D0A)) [
      | inl e ↦
          let next : read_u32 big raw 0 ≡ 0x0A0D0D0A = ground arith in
          rw e (
            refused _ _ refl refl (
              foreign raw rest split long
                (next_generation (first_cells raw long ∙ ap (u32_bytes big) next))))
      | inr e ↦ rw e (elim (Option-cases (detect_magic (take 4 raw))) [
        | inl bad ↦ rw bad (
            refused _ _ refl refl (
              foreign raw rest split long
                (other_magic (λ order precision. detect_magic-none _ order precision bad))))
        | inr ((order, precision), good) ↦
            let header = parse_header raw order precision in
            let magic = detect_magic-some (take 4 raw) good in
            rw good
              (elim (check_header-cases raw order precision header magic
                (all-IsGlobalHeader order raw long)) [
                  | inl (fine, fields, some_snaplen) ↦ rw fine (
                      opened _ (record {
                        raw = raw;
                        unread = rest;
                        split = split;
                        long = long;
                        magic = magic;
                        header = fields;
                        some_snaplen = some_snaplen;
                        rest = refl;
                        no_error = clean;
                        at_first = first;
                        behind_header = refl;
                        to_the_end = whole;
                        sized = sized;
                        addressable = small;
                      }))
                  | inr (why, bad, reason) ↦
                      rw bad (refused _ _ refl refl (foreign raw rest split long reason))
                ])
      ])
    ]

-- Open, on a file whose reported size is the length of its content, does what the content says. It
-- returns true where the file, below 2^64 bytes, starts with a global header: one of the four
-- magics, then in the byte order of that the version 2.4, a snap length that is not 0 and the link
-- type 1. The reader then holds that byte order, the precision and the snap length, and stands
-- behind the header, with the rest of the file unread and no error. Else it returns false without a
-- stream, and the error names what the content lacks.
pub open_reader-Opening :
    (reader : PcapReader) (content : Bytes)
    → Opening content (
        open_reader reader
          (record { reported_size = some (length content); content = some content }))
unfolding open_reader open_content clear
open_reader-Opening reader content = elim (Bool-cases (ltb (2 ^ 64 - 1) (length content))) [
  | inl long ↦ rw long (refused _ _ refl refl (oversized (ground arith)))
  | inr fits ↦ rw fits (elim (Option-cases (read_exact 24 content)) [
    | inl few ↦
        rw (few, open_content) (refused _ _ refl refl (short (read_exact-none 24 content few)))
    | inr ((raw, rest), taken) ↦
        let (cut, exact) = read_exact-split 24 content raw rest taken in
        rw (taken, open_content)
          (open_header-Opening
            (record {
              stream = none;
              global_header = empty_header;
              file_size = length content;
              next_input_offset = 0;
              next_packet_index = 0;
              error = none;
              incomplete_tail_info = none;
            })
            content raw rest refl refl (ground (arith, length-append raw rest)) refl (ground arith)
            cut exact)
  ])
]

pub Opening-cases :
    {content : Bytes} {out : PcapReader × Bool}
    → Opening content out
    → ((r : PcapReader) × (out ≡ (r, true)) × IsOpen content r)
      ⊎ ((e : ReadError) × (r : PcapReader) × (out ≡ (r, false)) × (r.error ≡ some e))
Opening-cases (opened r o) = inl (r, refl, o)
Opening-cases (refused e r why closed reason) = inr (e, r, refl, why)
