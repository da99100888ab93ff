-- ===== src/Quic/RoundTrip.antt =====
-- ParseLongHeader against the layout of Wire.
use pcap_constrictor_win_pac.Base.{
  ℕ, ◌+◌, ◌*◌, ◌<◌, ◌≤◌, ◌≡◌, refl, ap, ap₂, ◌∙◌, some, ◌∷◌, [], ◌++◌, Bytes, length, take,
  length-append, arith, ◌==◌, inl, inr, Bool-cases,
}
use pcap_constrictor_win_pac.Quic.Parse.{
  read_connection_id, skip_measured, packet_end, header_fields, parse_long_header, is_long_header,
}
use pcap_constrictor_win_pac.Quic.Varint.{read_varint-varint_bytes}
use pcap_constrictor_win_pac.Quic.Wire.{
  Lies, byte, Lies-head, Lies-within, Lies-append, VarintWidth, varint_bound, varint_bytes,
  id_bytes, known_id, measured_bytes, LongHeader, header_type, body_bytes, long_header_bytes,
  IsLongHeader,
}
use pcap_constrictor_win_pac.Span.Locality.{has_bytes-le}
use pcap_constrictor_win_pac.Span.{Span, copy_bytes, read_be32}

module _ (s : Span) where
  copy_bytes-Lies :
      (offset : ℕ) (xs : Bytes) → Lies s offset xs → copy_bytes s offset (length xs) ≡ xs
  unfolding copy_bytes
  copy_bytes-Lies offset [] l = refl
  copy_bytes-Lies offset (x ∷ xs) (byte e rest) = ap₂ ◌∷◌ e (copy_bytes-Lies (offset + 1) xs rest)

  read_connection_id-id_bytes :
      (offset : ℕ) (xs : Bytes)
      → length xs ≤ 20
      → Lies s offset (id_bytes xs)
      → read_connection_id s offset ≡ some (known_id xs, offset + length (id_bytes xs))
  unfolding read_connection_id
  read_connection_id-id_bytes offset xs short (byte e rest) =
      let within = Lies-within s (offset + 1) xs rest in
      rw
        (
          e,
          has_bytes-le s offset 1 (omega arith),
          has_bytes-le s (offset + 1) (length xs) (omega arith),
          copy_bytes-Lies (offset + 1) xs rest,
        )
        (ground arith)

  skip_measured-measured_bytes :
      (offset : ℕ) (w : VarintWidth) (xs : Bytes)
      → length xs < varint_bound w
      → Lies s offset (measured_bytes w xs)
      → skip_measured s offset ≡ some (offset + length (measured_bytes w xs))
  unfolding skip_measured
  skip_measured-measured_bytes offset w xs fits l =
      let (number, rest) = Lies-append s offset (varint_bytes w (length xs)) l in
      let within = Lies-within s (offset + length (varint_bytes w (length xs))) xs rest in
      rw
        (
          read_varint-varint_bytes s w (length xs) offset fits number,
          has_bytes-le s (offset + length (varint_bytes w (length xs))) (length xs) within,
          length-append (varint_bytes w (length xs)) xs,
        )
        (ground arith)

  packet_end-body_bytes :
      (offset : ℕ) (h : LongHeader)
      → IsLongHeader h
      → Lies s offset (body_bytes h)
      → packet_end s (header_type h) offset ≡ some (offset + length (body_bytes h))
  unfolding packet_end
  packet_end-body_bytes offset h w l = elim (Bool-cases (header_type h == 0)) [
    | inl initial ↦
        let token = measured_bytes h.token_width h.token in
        let packet = measured_bytes h.packet_width h.packet in
        let split = Lies-append s offset token (rw initial at l) in
        rw
          (
            initial,
            skip_measured-measured_bytes offset h.token_width h.token w.token_fits split.0,
            skip_measured-measured_bytes (offset + length token) h.packet_width h.packet
                w.packet_fits split.1,
            length-append token packet,
          )
          (ap some (omega arith))
    | inr other ↦
        let early = w.not_retry in
        rw
          (
            other,
            skip_measured-measured_bytes offset h.packet_width h.packet w.packet_fits
                (rw other at l),
          )
          (ground arith)
  ]

  read_be32-Lies :
      (offset a b c d : ℕ) (xs : Bytes)
      → Lies s offset (a ∷ b ∷ c ∷ d ∷ xs)
      → read_be32 s offset ≡ a * 16777216 + b * 65536 + c * 256 + d
  unfolding read_be32
  read_be32-Lies offset a b c d xs l =
      let from_c = (Lies-append s offset (a ∷ b ∷ []) l).1 in
      let from_d = (Lies-append s offset (a ∷ b ∷ c ∷ []) l).1 in
      let at_b = (Lies-append s offset (a ∷ []) l).1 in
      rw
        (
          Lies-head s offset a _ l,
          Lies-head s (offset + 1) b _ at_b,
          Lies-head s (offset + 2) c _ from_c,
          Lies-head s (offset + 3) d _ from_d,
        )
        refl

  -- ParseLongHeader reads the fields of a long header that has been laid out as RFC 9000 says, at
  -- any place of the payload, with its connection ids, and skips the token and the packet behind
  -- their lengths, whichever width these have. It is not a Retry packet or a version negotiation.
  pub parse_long_header-long_header_bytes :
      (start : ℕ) (h : LongHeader)
      → IsLongHeader h
      → Lies s start (long_header_bytes h)
      → parse_long_header s start
        ≡ some (record {
          total_size = length (long_header_bytes h);
          packet_type = header_type h;
          version = h.version;
          dcid = known_id h.dcid;
          scid = known_id h.scid;
        })
  unfolding parse_long_header header_fields is_long_header
  parse_long_header-long_header_bytes start h w l =
      rw
        (
          has_bytes-le s start 7 long,
          Lies-head s start h.first_byte _ l,
          version_read,
          read_connection_id-id_bytes (start + 5) h.dcid w.dcid_fits at_dcid.0,
          read_connection_id-id_bytes _ h.scid w.scid_fits at_scid.0,
          packet_end-body_bytes _ h w at_scid.1,
          length-append h.dcid (id_bytes h.scid ++ body_bytes h),
          length-append h.scid (body_bytes h),
        )
        (let a = w.high_bit in let b = w.one_byte in let c = w.some_version in ground arith)
    where
      at_dcid :
          Lies s (start + 5) (id_bytes h.dcid)
          × Lies s (start + 5 + length (id_bytes h.dcid)) (id_bytes h.scid ++ body_bytes h)
      at_dcid =
          Lies-append s (start + 5) (id_bytes h.dcid)
            (Lies-append s start (take 5 (long_header_bytes h)) l).1

      at_scid :
          Lies s (start + 5 + length (id_bytes h.dcid)) (id_bytes h.scid)
          × Lies s (start + 5 + length (id_bytes h.dcid) + length (id_bytes h.scid)) (body_bytes h)
      at_scid = Lies-append s _ (id_bytes h.scid) at_dcid.1

      long : start + 7 ≤ s.size
      long = omega (arith, Lies-within s _ (id_bytes h.scid) at_scid.0)

      version_read : read_be32 s (start + 1) ≡ h.version
      version_read =
          let fits = w.version_fits in
          read_be32-Lies (start + 1) _ _ _ _ _ (Lies-append s start (h.first_byte ∷ []) l).1
          ∙ omega arith
