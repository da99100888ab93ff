-- ===== src/Main/Controls.antt =====
-- The stop flag of main.cpp and the handler that raises it, in a build for Windows.
use pcap_constrictor_win_pac.Base.{
  ℕ, ◌≡◌, refl, Bool, true, false, ◌||◌, some, List, [], ◌∷◌, ◌==◌, if◌then◌else◌, arith,
}
use pcap_constrictor_win_pac.Live.Ending.{KeepsFlag}
use pcap_constrictor_win_pac.Live.Loop.{stop_requested}
use pcap_constrictor_win_pac.Live.Types.{NextAnswer, Round}

-- The flag, and whether the event is handled. CTRL_C_EVENT is 0 and CTRL_BREAK_EVENT is 1.
unfoldable pub handle_console_ctrl : ℕ → Bool → Bool × Bool
handle_console_ctrl control_type g_stop_requested =
    if control_type == 0 || control_type == 1 then (true, true) else (g_stop_requested, false)

abbrev pub controls : Bool → List ℕ → Bool
controls flag [] = flag
controls flag (event ∷ events) = controls (handle_console_ctrl event flag).0 events

-- A round with the console events that come before it.
pub record Moment : Type 0 where
  pub events : List ℕ
  pub now : ℕ
  pub answer : NextAnswer

-- The rounds that the loop sees, and the flag behind them.
abbrev pub rounds_of : Bool → List Moment → List Round × Bool
rounds_of flag [] = ([], flag)
rounds_of flag (m ∷ moments) =
    let up = controls flag m.events in
    let (rounds, behind) = rounds_of up moments in
    (record { stop_flag = some up; now = m.now; answer = m.answer } ∷ rounds, behind)

controls_stay : (events : List ℕ) → controls true events ≡ true
unfolding handle_console_ctrl
controls_stay [] = refl
controls_stay (event ∷ events) = ground (arith, controls_stay events)

rounds_of_stay :
    (flag : Bool) (moments : List Moment) → flag ≡ true → (rounds_of flag moments).1 ≡ true
rounds_of_stay flag [] up = up
rounds_of_stay flag (m ∷ moments) up =
    rounds_of_stay (controls flag m.events) moments (rw up (controls_stay m.events))

-- The handler never takes the flag down: a flag that the loop has seen up in some round is up
-- behind the loop, whatever events come.
pub rounds_of-KeepsFlag :
    (flag : Bool) (moments : List Moment)
    → KeepsFlag (some (rounds_of flag moments).1) (rounds_of flag moments).0
unfolding stop_requested
rounds_of-KeepsFlag flag [] = tt
rounds_of-KeepsFlag flag (m ∷ moments) = (
  λ up. rounds_of_stay (controls flag m.events) moments up,
  rounds_of-KeepsFlag (controls flag m.events) moments,
)
