-- ===== src/Live/Liveness.antt =====
-- What makes the capture loop end.
use pcap_constrictor_win_pac.Base.{
  ℕ, suc, ◌+◌, ◌-◌, ◌*◌, ◌%◌, ◌^◌, ◌<◌, ◌≤◌, ◌≡◌, refl, ap, ◌∙◌, subst, Bool, true, false, not,
  ◌&&◌, some, List, [], ◌∷◌, ◌++◌, ◌==◌, leb, if◌then◌else◌, length, arith, Bool-cases, inl, inr,
  ◌⊎◌,
}
use pcap_constrictor_win_pac.Feed.Types.{CaptureStats, add64, accumulate_decision_stats}
use pcap_constrictor_win_pac.Live.Books.{onward}
use pcap_constrictor_win_pac.Live.Loop.{
  stop_requested, duration_limit_reached, Session, Capture, Progress, going, left, count_packet,
  iteration, capture_loop,
}
use pcap_constrictor_win_pac.Live.Turns.{
  is_delivery, Turn, flagged, counted, timed, idle, broken, refused, unwritten, captured,
  iteration-Turn,
}
use pcap_constrictor_win_pac.Live.Types.{Clocks, Round, max_packets_reached, duration_reached}
use pcap_constrictor_win_pac.Policy.Decide.{LiveCaptureDecision}

-- The rounds in which Npcap hands over a packet.
abbrev pub deliveries : List Round → ℕ
deliveries [] = 0
deliveries (r ∷ rounds) =
    if is_delivery r.answer then suc (deliveries rounds) else deliveries rounds

-- Reasons for a loop to end in a round, behind other rounds.
pub data Due (s : Session) (c : Capture) (before : List Round) (r : Round) : Type 0 where
  stop_is_due : r.stop_flag ≡ some true → Due s c before r
  time_is_due :
      0 < s.config.duration_sec
      → s.config.duration_sec * s.clocks.steady_per_second < 2 ^ 63
      → s.config.duration_sec * s.clocks.steady_per_second ≤ r.now - s.start_time
      → Due s c before r
  count_is_due :
      0 < s.config.max_packets
      → s.config.max_packets ≤ c.stats.packets_total + deliveries before
      → Due s c before r

onward-append :
    (s : Session) (before after : List Round)
    → ((next : Capture)
        → capture_loop s next (before ++ after) ≡ onward s after (capture_loop s next before))
    → (out : Progress) → onward s (before ++ after) out ≡ onward s after (onward s before out)
onward-append s before after ih (left end) = refl
onward-append s before after ih (going next) = ih next

-- The loop over the rounds before, and then over the others.
pub capture_loop-append :
    (s : Session) (c : Capture) (before after : List Round)
    → capture_loop s c (before ++ after) ≡ onward s after (capture_loop s c before)
unfolding capture_loop
capture_loop-append s c [] after = refl
capture_loop-append s c (r ∷ before) after =
    onward-append s before after (λ next. capture_loop-append s next before after) (iteration s c r)

abbrev StillCounts : ℕ → Progress → Type 0
StillCounts n (going c) = c.stats.packets_total ≡ n
StillCounts n (left c) = Unit {0}

pub packets_total-count_packet :
    (s : CaptureStats) (caplen : ℕ) (d : LiveCaptureDecision)
    → s.packets_total + 1 < 2 ^ 64
    → (count_packet s caplen d).packets_total ≡ suc s.packets_total
unfolding count_packet accumulate_decision_stats add64
packets_total-count_packet s caplen d h = ground arith

Turn-StillCounts :
    (s : Session) (c : Capture) (r : Round) {out : Progress}
    → c.stats.packets_total + 1 < 2 ^ 64
    → Turn s c r out
    → StillCounts (c.stats.packets_total + deliveries (r ∷ [])) out
Turn-StillCounts s c r small (flagged e) = tt
Turn-StillCounts s c r small (counted m n) = tt
Turn-StillCounts s c r small (timed e) = tt
Turn-StillCounts s c r small (idle ms le e) = ground arith
Turn-StillCounts s c r small (broken e) = tt
Turn-StillCounts s c r small (refused text n) = tt
Turn-StillCounts s c r small (unwritten h memory del e) = tt
Turn-StillCounts s c r small (captured h memory w below del e) =
    let shown : is_delivery r.answer ≡ true = rw (del.0, del.1, del.2, del.3) refl in
    packets_total-count_packet c.stats h.caplen _ small ∙ rw shown (omega arith)

onward-StillCounts :
    (s : Session) (rounds : List Round) (n : ℕ)
    → n + length rounds < 2 ^ 64
    → ((c : Capture)
        → c.stats.packets_total + length rounds < 2 ^ 64
        → StillCounts (c.stats.packets_total + deliveries rounds) (capture_loop s c rounds))
    → (out : Progress) → StillCounts n out
    → StillCounts (n + deliveries rounds) (onward s rounds out)
onward-StillCounts s rounds n small ih (left c) h = tt
onward-StillCounts s rounds n small ih (going c) h =
    subst (λ k. StillCounts (k + deliveries rounds) (capture_loop s c rounds)) h
      (ih c (omega arith))

deliveries-cons :
    (r : Round) (rounds : List Round) (n : ℕ)
    → n + deliveries (r ∷ []) + deliveries rounds ≡ n + deliveries (r ∷ rounds)
deliveries-cons r rounds n = ground arith

capture_loop-StillCounts :
    (s : Session) (c : Capture) (rounds : List Round)
    → c.stats.packets_total + length rounds < 2 ^ 64
    → StillCounts (c.stats.packets_total + deliveries rounds) (capture_loop s c rounds)
unfolding capture_loop
capture_loop-StillCounts s c [] small = omega arith
capture_loop-StillCounts s c (r ∷ rounds) small =
    subst (λ k. StillCounts k (onward s rounds (iteration s c r)))
      (deliveries-cons r rounds c.stats.packets_total)
      (onward-StillCounts s rounds (c.stats.packets_total + deliveries (r ∷ [])) (ground arith)
        (λ next. capture_loop-StillCounts s next rounds) (iteration s c r)
        (Turn-StillCounts s c r (omega arith) (iteration-Turn s c r)))

duration_is_reached :
    (clocks : Clocks) (start now duration : ℕ)
    → 0 < duration
    → duration * clocks.steady_per_second < 2 ^ 63
    → duration * clocks.steady_per_second ≤ now - start
    → duration_limit_reached clocks start now duration ≡ true
unfolding duration_limit_reached
duration_is_reached clocks start now duration a b d =
    let whole : duration * clocks.steady_per_second % 2 ^ 64 ≡ duration * clocks.steady_per_second =
      omega arith in
    rw whole (ground arith)

-- The three tests at the head of an iteration.
iteration_left :
    (s : Session) (c : Capture) (r : Round)
    → (stop_requested r.stop_flag ≡ true)
      ⊎ ((not (s.config.max_packets == 0) && leb s.config.max_packets c.stats.packets_total ≡ true)
          ⊎ (duration_limit_reached s.clocks s.start_time r.now s.config.duration_sec ≡ true))
    → (end : Capture) × (iteration s c r ≡ left end)
unfolding iteration
iteration_left s c r due = elim (Bool-cases (stop_requested r.stop_flag)) [
  | inl e ↦ (c, rw e refl)
  | inr e ↦
      elim (Bool-cases
        (not (s.config.max_packets == 0) && leb s.config.max_packets c.stats.packets_total)) [
          | inl m ↦ (record c { termination_reason = max_packets_reached }, rw (e, m) refl)
          | inr m ↦ (
            record c { termination_reason = duration_reached },
            rw (e, m) (rw (remaining due e m) refl),
          )
        ]
]
  where
    remaining :
        {A B D : Bool} → (A ≡ true) ⊎ ((B ≡ true) ⊎ (D ≡ true)) → A ≡ false → B ≡ false → D ≡ true
    remaining (inl a) x y = cc
    remaining (inr (inl b)) x y = cc
    remaining (inr (inr d)) x y = d

-- In a round in which an end is due, the loop is left.
iteration_ends :
    (s : Session) (c : Capture) (r : Round)
    → Due s c [] r
    → (end : Capture) × (iteration s c r ≡ left end)
unfolding stop_requested
iteration_ends s c r (stop_is_due e) = iteration_left s c r (inl (rw e refl))
iteration_ends s c r (time_is_due a b d) =
    iteration_left s c r (inr (inr (duration_is_reached s.clocks s.start_time r.now _ a b d)))
iteration_ends s c r (count_is_due a b) = iteration_left s c r (inr (inl (ground arith)))

Due-behind :
    {s : Session} {c next : Capture} {before : List Round} {r : Round}
    → next.stats.packets_total ≡ c.stats.packets_total + deliveries before
    → Due s c before r
    → Due s next [] r
Due-behind e (stop_is_due f) = stop_is_due f
Due-behind e (time_is_due a b d) = time_is_due a b d
Due-behind e (count_is_due a b) = count_is_due a (omega arith)

capture_loop_cases :
    (s : Session) (c : Capture) (before : List Round) (r : Round) (out : Progress)
    → capture_loop s c before ≡ out
    → StillCounts (c.stats.packets_total + deliveries before) out
    → Due s c before r
    → (end : Capture) × ((after : List Round) → capture_loop s c (before ++ (r ∷ after)) ≡ left end)
unfolding capture_loop
capture_loop_cases s c before r (left end) e counts due =
    (end, λ after. capture_loop-append s c before (r ∷ after) ∙ ap (onward s (r ∷ after)) e)
capture_loop_cases s c before r (going next) e counts due =
    let (end, last) = iteration_ends s next r (Due-behind counts due) in
    (
      end,
      λ after.
          capture_loop-append s c before (r ∷ after)
          ∙ ap (onward s (r ∷ after)) e
          ∙ ap (onward s after) last,
    )

-- The capture loop ends, whatever Npcap answers, and with what it has then: at the latest in a
-- round in which the stop flag is up; in which duration_sec, not 0 and not too large for the clock,
-- has passed since the start; or before which the packets counted at the start and those handed
-- over make up max_packets, which is not 0. What Npcap would answer afterwards changes nothing.
pub capture_loop_ends :
    (s : Session) (c : Capture) (before : List Round) (r : Round)
    → c.stats.packets_total + length before < 2 ^ 64
    → Due s c before r
    → (end : Capture) × ((after : List Round) → capture_loop s c (before ++ (r ∷ after)) ≡ left end)
capture_loop_ends s c before r small due =
    capture_loop_cases s c before r _ refl (capture_loop-StillCounts s c before small) due
