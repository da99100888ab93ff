-- ===== src/Quic/Varint.antt =====
-- ReadVarint against the layout of Wire.
use pcap_constrictor_win_pac.Base.{
  ℕ, zero, suc, ◌+◌, ◌-◌, ◌*◌, ◌/◌, ◌%◌, ◌^◌, ◌<◌, ◌≤◌, ◌≡◌, refl, ap, sym, subst, ◌∙◌, some, ◌∷◌,
  [], length, length-append, arith,
}
use pcap_constrictor_win_pac.Quic.Parse.{varint_loop, varint_length, read_varint}
use pcap_constrictor_win_pac.Quic.Wire.{
  Lies, byte, Lies-head, Lies-within, Lies-append, shifted, big_endian, VarintWidth, one, two, four,
  eight, varint_bound, varint_bytes,
}
use pcap_constrictor_win_pac.Span.Locality.{has_bytes-le}
use pcap_constrictor_win_pac.Span.{Span, byte_at}

pub length-big_endian : (n v : ℕ) → length (big_endian n v) ≡ n
length-big_endian zero v = refl
length-big_endian (suc n) v =
    omega
      (arith, length-append (big_endian n (v / 256)) (v % 256 ∷ []), length-big_endian n (v / 256))

module _ (s : Span) where
  -- The last round of the loop.
  varint_loop_last :
      (n offset a : ℕ)
      → varint_loop (suc n) s offset a
        ≡ (varint_loop n s offset a * 256 + byte_at s (offset + n)) % 2 ^ 64
  unfolding varint_loop
  varint_loop_last zero offset a = ap (λ i. (a * 256 + byte_at s i) % 2 ^ 64) (omega arith)
  varint_loop_last (suc n) offset a =
      varint_loop_last n (offset + 1) _
      ∙ ap (λ i. (varint_loop (suc n) s offset a * 256 + byte_at s i) % 2 ^ 64) (omega arith)

  varint_loop-big_endian :
      (n offset a v : ℕ)
      → v < shifted n 1
      → shifted n a + v < 2 ^ 64
      → Lies s offset (big_endian n v)
      → varint_loop n s offset a ≡ shifted n a + v
  varint_loop-big_endian zero offset a v small fits l = unfold varint_loop in omega arith
  varint_loop-big_endian (suc n) offset a v small fits l =
      let split = Lies-append s offset (big_endian n (v / 256)) l in
      let before =
        varint_loop-big_endian n offset a (v / 256) (omega arith) (omega arith) split.0 in
      let last =
        ap (λ m. byte_at s (offset + m)) (sym (length-big_endian n (v / 256)))
        ∙ Lies-head s _ (v % 256) [] split.1 in
      varint_loop_last n offset a ∙ rw (before, last) omega arith

  read_varint-fields :
      (n bits high low offset : ℕ)
      → bits < 4
      → 2 ^ bits ≡ suc n
      → high < 64
      → low < shifted n 1
      → shifted n high + low < 2 ^ 64
      → Lies s offset ((bits * 64 + high) ∷ big_endian n low)
      → read_varint s offset ≡ some (shifted n high + low, offset + suc n)
  unfolding read_varint varint_length
  read_varint-fields n bits high low offset few width top rest fits (byte first behind) =
      rw
        (
          first,
          tag,
          width,
          has_bytes-le s offset 1 (omega (arith, inside)),
          has_bytes-le s offset (suc n) (omega (arith, inside)),
          value,
          one_less,
          varint_loop-big_endian n (offset + 1) high low rest fits behind,
        )
        refl
    where
      inside : offset + 1 + n ≤ s.size
      inside =
          subst (λ m. offset + 1 + m ≤ s.size) (length-big_endian n low)
            (Lies-within s (offset + 1) (big_endian n low) behind)

      value : (bits * 64 + high) % 64 ≡ high
      value = omega arith

      one_less : suc n - 1 ≡ n
      one_less = omega arith

      tag : (bits * 64 + high) / 64 ≡ bits
      tag = omega arith

  -- ReadVarint reads a number back, whichever width it has been laid out with.
  pub read_varint-varint_bytes :
      (w : VarintWidth) (v offset : ℕ)
      → v < varint_bound w
      → Lies s offset (varint_bytes w v)
      → read_varint s offset ≡ some (v, offset + length (varint_bytes w v))
  read_varint-varint_bytes one v offset small l =
      subst (λ x. read_varint s offset ≡ some (x, offset + 1)) (omega arith)
        (read_varint-fields 0 0 (v / 1) (v % 1) offset (omega arith) refl (omega arith)
          (omega arith) (omega arith) l)
  read_varint-varint_bytes two v offset small l =
      subst (λ x. read_varint s offset ≡ some (x, offset + 2)) (omega arith)
        (read_varint-fields 1 1 (v / 256) (v % 256) offset (omega arith) refl (omega arith)
          (omega arith) (omega arith) l)
  read_varint-varint_bytes four v offset small l =
      subst (λ x. read_varint s offset ≡ some (x, offset + 4)) (omega arith)
        (read_varint-fields 3 2 (v / 16777216) (v % 16777216) offset (omega arith) refl
          (omega arith) (omega arith) (omega arith) l)
  read_varint-varint_bytes eight v offset small l =
      subst (λ x. read_varint s offset ≡ some (x, offset + 8)) (omega arith)
        (read_varint-fields 7 3 (v / 72057594037927936) (v % 72057594037927936) offset (omega arith)
          refl (omega arith) (omega arith) (omega arith) l)
