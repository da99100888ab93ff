-- ===== src/Quic/Loop.antt =====
-- The loop over QUIC long headers ends, and the bound on its rounds is never felt.
use pcap_constrictor_win_pac.Base.{
  ℕ, zero, suc, ◌+◌, ◌≤◌, ◌≡◌, ◌∙◌, refl, Bool, true, ◌&&◌, Option, none, some, arith, ltb,
  if◌then◌else◌, Option-cases, inl, inr,
}
use pcap_constrictor_win_pac.Quic.Bounds.{parse_long_header_bounds}
use pcap_constrictor_win_pac.Quic.Evaluate.{LongWalk, behind, broken, learn, long_loop}
use pcap_constrictor_win_pac.Quic.Parse.{LongHeaderInfo, is_long_header, parse_long_header}
use pcap_constrictor_win_pac.Quic.Types.{FlowKey, FlowDirection, Flows}
use pcap_constrictor_win_pac.Span.{Span, byte_at}

module _ (key : FlowKey) (direction : FlowDirection) (payload : Span) where
  -- One round of the loop, and the rest of it by `next`.
  abbrev pub long_body :
      (Flows → ℕ → Bool → LongWalk) → Option LongHeaderInfo → Flows → ℕ → LongWalk
  long_body next none flows offset = broken flows
  long_body next (some info) flows offset =
      next (learn key direction info flows) (offset + info.total_size) true

  abbrev pub goes_on : ℕ → Bool
  goes_on offset = ltb offset payload.size && is_long_header (byte_at payload offset)

  long_loop-suc :
      (n : ℕ) (flows : Flows) (offset : ℕ) (saw : Bool)
      → long_loop (suc n) key direction payload flows offset saw ≡ (
          if goes_on offset
          then long_body
              (long_loop n key direction payload)
              (parse_long_header payload offset)
              flows
              offset
          else behind flows offset saw)
  unfolding long_loop
  long_loop-suc n flows offset saw = elim (Option-cases (parse_long_header payload offset)) [
    | inl fails ↦ rw (fails, long_loop)
    | inr (info, parsed) ↦ rw (parsed, long_loop)
  ]

  -- More rounds than the payload has bytes left change nothing.
  pub long_loop_fuel :
      (m n : ℕ) (flows : Flows) (offset : ℕ) (saw : Bool)
      → payload.size ≤ offset + m
      → payload.size ≤ offset + n
      → long_loop m key direction payload flows offset saw
        ≡ long_loop n key direction payload flows offset saw
  unfolding long_loop
  long_loop_fuel zero zero flows offset saw h k = refl
  long_loop_fuel zero (suc n) flows offset saw h k = ground arith
  long_loop_fuel (suc m) zero flows offset saw h k = ground arith
  long_loop_fuel (suc m) (suc n) flows offset saw h k =
      elim (Option-cases (parse_long_header payload offset)) [
        | inl fails ↦ rw (fails, long_loop)
        | inr (info, parsed) ↦
            let gain = parse_long_header_bounds payload offset parsed in
            rw (
              parsed,
              long_loop,
              long_loop_fuel m n (learn key direction info flows) (offset + info.total_size) true
                  (omega arith) (omega arith),
            )
      ]

  -- The loop with one round for each byte satisfies the equation of the source's `while` loop at
  -- every state: it stops at the first byte that starts no long header, and fails where a long
  -- header cannot be parsed.
  pub long_loop_lem :
      (flows : Flows) (offset : ℕ) (saw : Bool)
      → long_loop payload.size key direction payload flows offset saw ≡ (
          if goes_on offset
          then long_body
              (long_loop payload.size key direction payload)
              (parse_long_header payload offset)
              flows
              offset
          else behind flows offset saw)
  long_loop_lem flows offset saw =
      long_loop_fuel payload.size (suc payload.size) flows offset saw (omega arith) (omega arith)
      ∙ long_loop-suc payload.size flows offset saw

  -- The walk never leaves the payload.
  pub long_loop_inside :
      (fuel : ℕ) (flows : Flows) (offset : ℕ) (saw : Bool) {after : Flows} {end : ℕ} {seen : Bool}
      → long_loop fuel key direction payload flows offset saw ≡ behind after end seen
      → offset ≤ payload.size
      → end ≤ payload.size
  unfolding long_loop
  long_loop_inside zero flows offset saw e h = ground arith
  long_loop_inside (suc fuel) flows offset saw {after} {end} {seen} e h =
      elim (Option-cases (parse_long_header payload offset)) [
        | inl fails ↦ ground (arith, fails)
        | inr (info, parsed) ↦
            let gain = parse_long_header_bounds payload offset parsed in
            ground (
              arith,
              parsed,
              long_loop_inside fuel (learn key direction info flows) (offset + info.total_size) true
                  {after = after} {end = end} {seen = seen},
            )
      ]
