-- ===== src/Risk/Drawdown.antt =====
-- `DrawdownGuard` of src/kalshi_bot/risk/drawdown_guard.py. An equity is a number of smallest units,
-- not below zero; a percentage is in millionths; a time is in whole seconds from zero on.
pub mod Peaks
pub mod WindowPeak
pub mod Halting
pub mod Pausing
mod Tests
use kalshi_trading_bot.Prelude.{
  ℕ, ◌+◌, ◌-◌, ◌*◌, Bool, true, false, not, ◌&&◌, ◌||◌, Option, none, some, List, [], ◌∷◌, ◌++◌,
  leb, ltb, ◌==◌, if◌then◌else◌, Outcome, ok, raised, is_empty,
}
use Prim.Native.Nat.{max}

pub data GuardState : Type 0 where
  normal paused halted : GuardState

pub data DrawdownError : Type 0 where
  bad_thresholds equity_not_positive window_not_positive : DrawdownError
  timestamp_required zero_division : DrawdownError

-- A sample of the deque: its time and its equity.
abbrev pub Sample : Type 0
Sample = ℕ × ℕ

-- The drawdown 1 - equity / peak is the fraction lost / peak.
pub record Drawdown : Type 0 where
  pub lost : ℕ
  pub peak : ℕ

abbrev pub no_drawdown : Drawdown
no_drawdown = record { lost = 0; peak = 1 }

pub record DrawdownGuard : Type 0 where
  pub pause_pct : ℕ
  pub halt_pct : ℕ
  pub peak_window_s : Option ℕ
  pub allow_reentry_after_halt : Bool
  pub peak_equity : ℕ
  pub all_time_peak : ℕ
  pub state : GuardState
  pub drawdown : Drawdown
  pub drawdown_all_time : Drawdown
  pub ever_halted : Bool
  pub peaks : List Sample  -- oldest first

-- `peak_window_s is not None and peak_window_s <= 0`
abbrev pub is_zero_window : Option ℕ → Bool
is_zero_window none = false
is_zero_window (some window) = window == 0

-- `DrawdownGuard.__init__`
unfoldable pub new_drawdown_guard :
    ℕ → ℕ → ℕ → Option ℕ → Bool → Outcome DrawdownError DrawdownGuard
new_drawdown_guard pause_pct halt_pct initial_equity peak_window_s allow_reentry =
    if not (ltb 0 pause_pct && (ltb pause_pct halt_pct && ltb halt_pct 1000000))
    then raised bad_thresholds
    else (if initial_equity == 0
        then raised equity_not_positive
        else (if is_zero_window peak_window_s
            then raised window_not_positive
            else ok (record {
              pause_pct = pause_pct;
              halt_pct = halt_pct;
              peak_window_s = peak_window_s;
              allow_reentry_after_halt = allow_reentry;
              peak_equity = initial_equity;
              all_time_peak = initial_equity;
              state = normal;
              drawdown = no_drawdown;
              drawdown_all_time = no_drawdown;
              ever_halted = false;
              peaks = [];
            })))

-- The first loop of `_window_peak`: pops from the back while the back is at most the new equity.
unfoldable pub pop_smaller : ℕ → List Sample → List Sample
pop_smaller equity [] = []
pop_smaller equity (sample ∷ samples) =
    let rest = pop_smaller equity samples in
    if is_empty rest && leb sample.1 equity then [] else sample ∷ rest

-- Its second loop: pops from the front while the front has left the window.
unfoldable pub pop_expired : ℕ → ℕ → List Sample → List Sample
pop_expired window now [] = []
pop_expired window now (sample ∷ samples) =
    let rest = pop_expired window now samples in
    if leb (sample.0 + window) now then rest else sample ∷ rest

-- The deque that `_window_peak` leaves, and the front's equity. The front is there when the window
-- is not zero.
unfoldable pub window_peaks : ℕ → ℕ → ℕ → List Sample → List Sample
window_peaks window equity now peaks =
    pop_expired window now (pop_smaller equity peaks ++ (now, equity) ∷ [])

abbrev pub front_equity : List Sample → ℕ
front_equity [] = 0
front_equity (sample ∷ _) = sample.1

-- `1.0 - equity / peak >= pct`
abbrev pub at_least : Drawdown → ℕ → Bool
at_least drawdown pct = leb (pct * drawdown.peak) (drawdown.lost * 1000000)

abbrev pub drawdown_from : ℕ → ℕ → Drawdown
drawdown_from peak equity = record { lost = peak - equity; peak = peak }

-- The reference peak and the deque after an equity; `update` with a window requires a time.
unfoldable pub next_peak :
    Option ℕ → ℕ → Option ℕ → DrawdownGuard → Outcome DrawdownError (ℕ × List Sample)
next_peak none equity ts guard = ok (max guard.peak_equity equity, guard.peaks)
next_peak (some window) equity none guard = raised timestamp_required
next_peak (some window) equity (some now) guard =
    let peaks = window_peaks window equity now guard.peaks in ok (front_equity peaks, peaks)

abbrev pub is_halted : GuardState → Bool
is_halted halted = true
is_halted _ = false

-- The state machine at the end of `update`.
unfoldable pub judge : DrawdownGuard → DrawdownGuard
judge guard =
    let halting = at_least guard.drawdown_all_time guard.halt_pct in
    if is_halted guard.state && (not guard.allow_reentry_after_halt || halting)
    then guard
    else (if halting
        then record guard { ever_halted = true; state = halted }
        else (if at_least guard.drawdown guard.pause_pct
            then record guard { state = paused }
            else record guard { state = normal }))

abbrev measure : ℕ → DrawdownGuard → Outcome DrawdownError GuardState × DrawdownGuard
measure equity guard =
    let judged = judge (record guard {
      drawdown = drawdown_from guard.peak_equity equity;
      drawdown_all_time = drawdown_from guard.all_time_peak equity;
    }) in
    if guard.peak_equity == 0 || guard.all_time_peak == 0
    then (raised zero_division, guard)
    else (ok judged.state, judged)

abbrev update_from :
    ℕ
    → Outcome DrawdownError (ℕ × List Sample)
    → DrawdownGuard
    → Outcome DrawdownError GuardState × DrawdownGuard
update_from equity (raised error) guard = (raised error, guard)
update_from equity (ok (peak, peaks)) guard = measure equity (record guard {
  peak_equity = peak;
  peaks = peaks;
  all_time_peak = max guard.all_time_peak equity;
})

unfoldable pub update :
    ℕ → Option ℕ → DrawdownGuard → Outcome DrawdownError GuardState × DrawdownGuard
unfolding judge
update equity ts guard = update_from equity (next_peak guard.peak_window_s equity ts guard) guard

-- `DrawdownGuard.allows_new_entries`
unfoldable pub drawdown_allows : DrawdownGuard → Bool
drawdown_allows guard = elim guard.state [ normal ↦ true | paused ↦ false | halted ↦ false ]

-- `DrawdownGuard.reset`
unfoldable pub reset_drawdown : DrawdownGuard → DrawdownGuard
reset_drawdown guard = record guard { state = normal }
