-- ===== src/Live/Ending.antt =====
-- Why a live capture has ended.
use pcap_constrictor_win_pac.Base.{
  ℕ, ◌-◌, ◌*◌, ◌^◌, ◌<◌, ◌≤◌, negsuc, ◌≡◌, ◌≢◌, refl, Bool, true, Option, some, List, [], ◌∷◌,
  Bytes, is_empty, arith, Bool-cases, inl, inr,
}
use pcap_constrictor_win_pac.Decode.Types.{PcapLinkType}
use pcap_constrictor_win_pac.Live.Books.{onward}
use pcap_constrictor_win_pac.Live.Cases.{opening, run_cases}
use pcap_constrictor_win_pac.Live.Loop.{
  stop_requested, duration_limit_reached, Session, Capture, Progress, going, left, what, iteration,
  capture_loop,
}
use pcap_constrictor_win_pac.Live.Outcome.{ended}
use pcap_constrictor_win_pac.Live.Report.{termination_is_success}
use pcap_constrictor_win_pac.Live.Run.{
  mark_interrupted, conclude, failed, LiveRun, still_going, returned, new_session, new_capture,
  run_loop, run,
}
use pcap_constrictor_win_pac.Live.Turns.{
  Turn, flagged, counted, timed, idle, broken, refused, unwritten, captured, iteration-Turn,
}
use pcap_constrictor_win_pac.Live.Types.{
  stopped, max_packets_reached, duration_reached, capture_loop_ended, interrupted, is_ok, Clocks,
  Round, Handle, OpenLive, NpcapCaptureRunResult,
}
use pcap_constrictor_win_pac.Pcap.Writer.{OutStream, PcapWriter}
use pcap_constrictor_win_pac.Policy.Config.{CaptureOptions, PolicyConfig}

-- A stop flag that is seen in some round is still up behind the loop.
abbrev pub KeepsFlag : Option Bool → List Round → Type 0
KeepsFlag behind [] = Unit {0}
KeepsFlag behind (r ∷ rounds) =
    (stop_requested r.stop_flag ≡ true → stop_requested behind ≡ true) × KeepsFlag behind rounds

-- One of the rounds is such a round.
pub data Seen (P : Round → Type 0) : List Round → Type 0 where
  here : {r : Round} {rounds : List Round} → P r → Seen P (r ∷ rounds)
  later : {r : Round} {rounds : List Round} → Seen P rounds → Seen P (r ∷ rounds)

-- The duration, which is not 0, has passed; it is counted in ticks of the steady clock, where it
-- does not exceed them.
pub record HasPassed (clocks : Clocks) (duration_sec start_time : ℕ) (r : Round) : Type 0 where
  pub limited : duration_sec ≢ 0
  pub elapsed :
      duration_sec * clocks.steady_per_second < 2 ^ 63
      → duration_sec * clocks.steady_per_second ≤ r.now - start_time

-- pcap_next_ex has returned PCAP_ERROR_BREAK, which is -2.
abbrev pub IsBreak : Round → Type 0
IsBreak r = r.answer.status ≡ negsuc 1

-- A reason with the message and the packets that are there then; `up` says of the flag that it is
-- up behind the loop.
record Explained (s : Session) (rounds : List Round) (up : Bool) (c : Capture) : Type 0 where
  success : termination_is_success c.termination_reason ≡ is_empty c.message
  by_count :
      c.termination_reason ≡ max_packets_reached
      → (s.config.max_packets ≢ 0) × (s.config.max_packets ≤ c.stats.packets_total)
  by_time :
      c.termination_reason ≡ duration_reached
      → Seen (HasPassed s.clocks s.config.duration_sec s.start_time) rounds
  by_break : c.termination_reason ≡ capture_loop_ended → Seen IsBreak rounds
  by_flag : c.termination_reason ≡ stopped → up ≡ true
  not_yet : c.termination_reason ≢ interrupted

abbrev IsFresh : Capture → Type 0
IsFresh c = (c.termination_reason ≡ stopped) × (c.message ≡ [])

abbrev Explains : Session → List Round → Bool → Progress → Type 0
Explains s rounds up (going c) = IsFresh c
Explains s rounds up (left c) = Explained s rounds up c

duration_limit_reached-true :
    (clocks : Clocks) (start now duration : ℕ)
    → duration_limit_reached clocks start now duration ≡ true
    → (duration ≢ 0)
      × (duration * clocks.steady_per_second < 2 ^ 63
          → duration * clocks.steady_per_second ≤ now - start)
unfolding duration_limit_reached
duration_limit_reached-true clocks start now duration h = (ground arith, λ small. ground arith)

Turn-Explains :
    (s : Session) (c : Capture) (r : Round) (rounds : List Round) (behind : Option Bool)
    {out : Progress}
    → (stop_requested r.stop_flag ≡ true → stop_requested behind ≡ true)
    → IsFresh c
    → Turn s c r out
    → Explains s (r ∷ rounds) (stop_requested behind) out
unfolding termination_is_success what
Turn-Explains s c r rounds behind keeps (a, b) (flagged e) =
    let up = keeps e in
    record {
      success = ground arith;
      by_count = λ q. ground arith;
      by_time = λ q. absurd (ground arith);
      by_break = λ q. absurd (ground arith);
      by_flag = λ q. ground arith;
      not_yet = λ q. ground arith;
    }
Turn-Explains s c r rounds behind keeps (a, b) (counted m n) = record {
  success = ground arith;
  by_count = λ q. ground arith;
  by_time = λ q. absurd (ground arith);
  by_break = λ q. absurd (ground arith);
  by_flag = λ q. ground arith;
  not_yet = λ q. ground arith;
}
Turn-Explains s c r rounds behind keeps (a, b) (timed e) =
    let n = duration_limit_reached-true s.clocks s.start_time r.now s.config.duration_sec e in
    record {
      success = ground arith;
      by_count = λ q. ground arith;
      by_time = λ q. here (record { limited = n.0; elapsed = n.1 });
      by_break = λ q. absurd (ground arith);
      by_flag = λ q. ground arith;
      not_yet = λ q. ground arith;
    }
Turn-Explains s c r rounds behind keeps fresh (idle ms le e) = fresh
Turn-Explains s c r rounds behind keeps (a, b) (broken e) = record {
  success = ground arith;
  by_count = λ q. ground arith;
  by_time = λ q. absurd (ground arith);
  by_break = λ q. here e;
  by_flag = λ q. ground arith;
  not_yet = λ q. ground arith;
}
Turn-Explains s c r rounds behind keeps (a, b) (refused text n) = record {
  success = ground arith;
  by_count = λ q. ground arith;
  by_time = λ q. absurd (ground arith);
  by_break = λ q. absurd (ground arith);
  by_flag = λ q. ground arith;
  not_yet = λ q. ground arith;
}
Turn-Explains s c r rounds behind keeps (a, b) (unwritten h memory del e) = record {
  success = ground arith;
  by_count = λ q. ground arith;
  by_time = λ q. absurd (ground arith);
  by_break = λ q. absurd (ground arith);
  by_flag = λ q. ground arith;
  not_yet = λ q. ground arith;
}
Turn-Explains s c r rounds behind keeps fresh (captured h memory w below del e) = fresh

later-Explains :
    (s : Session) (r : Round) (rounds : List Round) (up : Bool) (out : Progress)
    → Explains s rounds up out
    → Explains s (r ∷ rounds) up out
later-Explains s r rounds up (going c) fresh = fresh
later-Explains s r rounds up (left c) why = record {
  success = why.success;
  by_count = why.by_count;
  by_time = λ q. later (why.by_time q);
  by_break = λ q. later (why.by_break q);
  by_flag = why.by_flag;
  not_yet = why.not_yet;
}

onward-Explains :
    (s : Session) (behind : Option Bool) (r : Round) (rounds : List Round)
    → ((c : Capture)
        → IsFresh c
        → Explains s rounds (stop_requested behind) (capture_loop s c rounds))
    → (out : Progress) → Explains s (r ∷ rounds) (stop_requested behind) out
    → Explains s (r ∷ rounds) (stop_requested behind) (onward s rounds out)
onward-Explains s behind r rounds ih (going c) fresh =
    later-Explains s r rounds _ (capture_loop s c rounds) (ih c fresh)
onward-Explains s behind r rounds ih (left c) why = why

capture_loop-Explains :
    (s : Session) (c : Capture) (behind : Option Bool) (rounds : List Round)
    → KeepsFlag behind rounds
    → IsFresh c
    → Explains s rounds (stop_requested behind) (capture_loop s c rounds)
unfolding capture_loop
capture_loop-Explains s c behind [] keeps fresh = fresh
capture_loop-Explains s c behind (r ∷ rounds) keeps fresh =
    onward-Explains s behind r rounds (λ next. capture_loop-Explains s next behind rounds keeps.1)
      (iteration s c r) (Turn-Explains s c r rounds behind keeps.0 fresh (iteration-Turn s c r))

-- The result of a run that has returned.
pub record IsEnding (clocks : Clocks) (open_live : OpenLive) (config : CaptureOptions)
    (r : NpcapCaptureRunResult) : Type 0 where
  pub success : termination_is_success r.termination_reason ≡ is_ok r
  pub by_count :
      r.termination_reason ≡ max_packets_reached
      → (config.max_packets ≢ 0) × (config.max_packets ≤ r.stats.packets_total)
  pub by_time :
      r.termination_reason ≡ duration_reached
      → (h : Handle) × ((opening open_live config).0 ≡ some h)
        × Seen (HasPassed clocks config.duration_sec h.start_time) h.rounds
  pub by_break :
      r.termination_reason ≡ capture_loop_ended
      → (h : Handle) × ((opening open_live config).0 ≡ some h) × Seen IsBreak h.rounds
  pub by_flag :
      r.termination_reason ≡ interrupted
      → (h : Handle) × ((opening open_live config).0 ≡ some h)
        × (stop_requested h.stop_flag_behind ≡ true)
  pub never_stopped : r.termination_reason ≢ stopped

abbrev pub Ends : Clocks → OpenLive → CaptureOptions → LiveRun → Type 0
Ends clocks open_live config (still_going c) = (c.termination_reason ≡ stopped) × (c.message ≡ [])
Ends clocks open_live config (returned ran) = IsEnding clocks open_live config ran.result

ended-Ends :
    (clocks : Clocks) (open_live : OpenLive) (config : CaptureOptions) (h : Handle)
    (link_type : PcapLinkType) (warning printed : Bytes) (out : Progress)
    → (opening open_live config).0 ≡ some h
    → Explains
        (new_session clocks config h link_type)
        h.rounds
        (stop_requested h.stop_flag_behind)
        out
    → Ends clocks open_live config (ended h link_type warning printed out)
unfolding conclude mark_interrupted new_session is_ok termination_is_success
ended-Ends clocks open_live config h link_type warning printed (going c) opens fresh = fresh
ended-Ends clocks open_live config h link_type warning printed (left c) opens why =
    elim (Bool-cases (stop_requested h.stop_flag_behind)) [
      | inl e ↦ record {
        success = ground (arith, why.success);
        by_count = λ q. ground (arith, why.by_count);
        by_time = λ q. (h, opens, why.by_time (ground arith));
        by_break = λ q. (h, opens, why.by_break (ground arith));
        by_flag = λ q. (h, opens, e);
        never_stopped = λ q. ground arith;
      }
      | inr e ↦ record {
        success = ground (arith, why.success, why.by_flag);
        by_count = λ q. ground (arith, why.by_count);
        by_time = λ q. (h, opens, why.by_time (ground arith));
        by_break = λ q. (h, opens, why.by_break (ground arith));
        by_flag = λ q. absurd (ground (arith, why.not_yet));
        never_stopped = λ q. ground (arith, why.by_flag);
      }
    ]

failed-Ends :
    (clocks : Clocks) (open_live : OpenLive) (config : CaptureOptions) (warning : Bytes)
    (link_type : PcapLinkType) (text : Bytes)
    → text ≢ []
    → IsEnding clocks open_live config (failed warning link_type text)
unfolding failed is_ok termination_is_success
failed-Ends clocks open_live config warning link_type text n = record {
  success = ground arith;
  by_count = λ q. ground arith;
  by_time = λ q. absurd (ground arith);
  by_break = λ q. absurd (ground arith);
  by_flag = λ q. ground arith;
  never_stopped = λ q. ground arith;
}

run_loop-Ends :
    (clocks : Clocks) (open_live : OpenLive) (config : CaptureOptions)
    (policy_config : PolicyConfig) (h : Handle) (link_type : PcapLinkType) (warning printed : Bytes)
    (writer : PcapWriter)
    → (opening open_live config).0 ≡ some h
    → KeepsFlag h.stop_flag_behind h.rounds
    → Ends clocks open_live config
        (run_loop clocks config h link_type warning printed (new_capture writer policy_config))
unfolding run_loop new_session new_capture
run_loop-Ends clocks open_live config policy_config h link_type warning printed writer opens keeps =
    let s = new_session clocks config h link_type in
    let start = new_capture writer policy_config in
    ended-Ends clocks open_live config h link_type warning printed (capture_loop s start h.rounds)
      opens (capture_loop-Explains s start h.stop_flag_behind h.rounds keeps (refl, refl))

-- Whatever Npcap answers, for a stop flag that stays up once it is up: a live capture that has
-- returned is a success by its reason exactly if its result carries no error message; the reason
-- max_packets_reached means that the limit is not 0 and that as many packets have been counted;
-- duration_reached that the duration is not 0 and, where the steady clock can count it, had passed
-- in a round of a capture that did open; capture_loop_ended that pcap_next_ex returned
-- PCAP_ERROR_BREAK in such a round; interrupted that the flag was up behind the loop of such a
-- capture; and no capture ends with the reason stopped. A capture that is still going has that
-- reason and no message.
pub run-Ends :
    (has_npcap : Bool) (clocks : Clocks) (open_live : OpenLive) (config : CaptureOptions)
    (policy_config : PolicyConfig) (path : Bytes) (file : Option OutStream)
    → ((h : Handle) → (opening open_live config).0 ≡ some h → KeepsFlag h.stop_flag_behind h.rounds)
    → Ends clocks open_live config (run has_npcap clocks open_live config policy_config path file)
run-Ends has_npcap clocks open_live config policy_config path file keeps =
    run_cases clocks config policy_config path file (Ends clocks open_live config)
      (λ warning link_type text printed output n.
        failed-Ends clocks open_live config warning link_type text n)
      has_npcap open_live
      (λ h opens stream link_type writer warning printed e maps w.
        run_loop-Ends clocks open_live config policy_config h link_type warning printed writer opens
          (keeps h opens))
