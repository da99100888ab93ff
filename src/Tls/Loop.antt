-- ===== src/Tls/Loop.antt =====
-- The loop over TLS records ends, and the bound on its rounds is never felt.
use pcap_constrictor_win_pac.Base.{
  ℕ, zero, suc, ◌+◌, ◌≤◌, ◌≡◌, ◌∙◌, refl, subst, Bool, true, Option, none, some, arith, inl, inr,
  if◌then◌else◌, Bool-cases,
}
use pcap_constrictor_win_pac.Policy.Config.{TlsOptions}
use pcap_constrictor_win_pac.Span.{Span}
use pcap_constrictor_win_pac.Tls.Scan.{
  RecordHeader, Scan, Round, again, leave, no_record_return, read_tls_record_header, scan_round,
  goes_on, scan_step, continue_with, scan_loop,
}
use pcap_constrictor_win_pac.Tls.Types.{DirectionKey}

abbrev Advances : Scan → Round → Type 0
Advances s (again s') = s.payload_offset + 5 ≤ s'.payload_offset
Advances s _ = Unit

pub continue_with-eq :
    (f g : Scan → Round) (r : Round)
    → ((s : Scan) → r ≡ again s → f s ≡ g s)
    → continue_with f r ≡ continue_with g r
continue_with-eq f g (again s) h = h s refl
continue_with-eq f g (leave s) h = refl
continue_with-eq f g (no_record_return erased s) h = refl

continue_with-inv :
    (R : Round → Type 0) (f : Scan → Round)
    → ((s : Scan) → R (again s) → R (f s))
    → (r : Round) → R r
    → R (continue_with f r)
continue_with-inv R f h (again s) q = h s q
continue_with-inv R f h (leave s) q = q
continue_with-inv R f h (no_record_return erased s) q = q

module _ (config : TlsOptions) (reverse_key : DirectionKey) (payload : Span)
    (confirmed : Bool) where
  scan_round-Advances :
      (h : Option RecordHeader) (s : Scan)
      → Advances s (scan_round config reverse_key payload confirmed h s)
  unfolding scan_round
  scan_round-Advances none s = ground arith
  scan_round-Advances (some h) s = ground arith

  -- A round that goes on passes at least the five bytes of a record header.
  pub scan_step-Advances :
      (s s' : Scan)
      → scan_step config reverse_key payload confirmed s ≡ again s'
      → s.payload_offset + 5 ≤ s'.payload_offset
  unfolding scan_step
  scan_step-Advances s s' e =
      subst (Advances s) e (scan_round-Advances (read_tls_record_header payload s.payload_offset) s)

  -- More rounds than the payload has bytes left change nothing.
  pub scan_loop_fuel :
      (m n : ℕ) (s : Scan)
      → payload.size ≤ s.payload_offset + m
      → payload.size ≤ s.payload_offset + n
      → scan_loop m config reverse_key payload confirmed s
        ≡ scan_loop n config reverse_key payload confirmed s
  unfolding scan_loop
  scan_loop_fuel zero zero s h k = refl
  scan_loop_fuel zero (suc n) s h k = ground arith
  scan_loop_fuel (suc m) zero s h k = ground arith
  scan_loop_fuel (suc m) (suc n) s h k = elim (Bool-cases (goes_on payload s)) [
    | inl on ↦
        rw (on, scan_loop)
          (continue_with-eq _ _ _ λ s' e.
            let gain = scan_step-Advances s s' e in
            scan_loop_fuel m n s' (omega arith) (omega arith))
    | inr off ↦ rw (off, scan_loop)
  ]

  scan_loop-suc :
      (n : ℕ) (s : Scan)
      → scan_loop (suc n) config reverse_key payload confirmed s ≡ (
          if goes_on payload s
          then continue_with
              (scan_loop n config reverse_key payload confirmed)
              (scan_step config reverse_key payload confirmed s)
          else leave s)
  unfolding scan_loop
  scan_loop-suc n s = refl

  -- The loop with one round for each byte satisfies the equation of the source's `while` loop at
  -- every state, so its bound on rounds is never what ends it.
  pub scan_loop_lem :
      (s : Scan)
      → scan_loop payload.size config reverse_key payload confirmed s ≡ (
          if goes_on payload s
          then continue_with
              (scan_loop payload.size config reverse_key payload confirmed)
              (scan_step config reverse_key payload confirmed s)
          else leave s)
  scan_loop_lem s =
      scan_loop_fuel payload.size (suc payload.size) s (omega arith) (omega arith)
      ∙ scan_loop-suc payload.size s

  -- The invariant rule of the loop.
  pub scan_loop_inv :
      (R : Round → Type 0)
      → ((s : Scan) → R (again s) → R (leave s))
      → ((s : Scan)
          → R (again s)
          → goes_on payload s ≡ true
          → R (scan_step config reverse_key payload confirmed s))
      → (fuel : ℕ) (s : Scan) → R (again s)
      → R (scan_loop fuel config reverse_key payload confirmed s)
  unfolding scan_loop
  scan_loop_inv R stop keep zero s h = stop s h
  scan_loop_inv R stop keep (suc fuel) s h = elim (Bool-cases (goes_on payload s)) [
    | inl on ↦
        rw (on, scan_loop)
          (continue_with-inv R _ (λ s' q. scan_loop_inv R stop keep fuel s' q) _ (keep s h on))
    | inr off ↦ rw (off, scan_loop) (stop s h)
  ]
