-- ===== src/Risk/Drawdown/Halting.antt =====
-- When `DrawdownGuard` (src/kalshi_bot/risk/drawdown_guard.py) halts: over a whole history of
-- updates, with or without a trailing window.
use Prim.Native.Nat.{max}
use kalshi_trading_bot.Prelude.{
  ℕ, ◌<◌, Bool, false, ◌≡◌, refl, Option, none, some, List, [], ◌∷◌, ◌++◌, ◌||◌, arith, All,
  is_empty, ap, ◌∙◌, ok,
}
use kalshi_trading_bot.Risk.Drawdown.{
  Sample, DrawdownGuard, new_drawdown_guard, pop_smaller, front_equity, window_peaks,
  is_zero_window, at_least, drawdown_from, next_peak, is_halted, judge, measure, update_from,
  update,
}
use kalshi_trading_bot.Risk.Drawdown.Peaks.{All-pop_smaller, All-pop_expired, All-snoc}
use kalshi_trading_bot.Risk.Drawdown.WindowPeak.{pop_expired-ne-nil}

-- The guard after a history of updates, newest first, whether they return or raise.
unfoldable pub update_all : List Sample → DrawdownGuard → DrawdownGuard
update_all [] guard = guard
update_all ((now, equity) ∷ history) guard = (update equity (some now) (update_all history guard)).1

-- The greatest equity so far.
abbrev pub greatest : ℕ → List Sample → ℕ
greatest initial [] = initial
greatest initial (s ∷ history) = max (greatest initial history) s.1

-- At some update the drawdown from the greatest equity so far was `pct` or more.
abbrev pub breached : ℕ → ℕ → List Sample → Bool
breached pct initial [] = false
breached pct initial (s ∷ history) =
    breached pct initial history
    || at_least (drawdown_from (greatest initial (s ∷ history)) s.1) pct

-- What an update leaves and what it keeps, in any case.
pub record Kept (guard guard' : DrawdownGuard) : Type 0 where
  pub pause_pct : guard'.pause_pct ≡ guard.pause_pct
  pub halt_pct : guard'.halt_pct ≡ guard.halt_pct
  pub window : guard'.peak_window_s ≡ guard.peak_window_s
  pub reentry : guard'.allow_reentry_after_halt ≡ guard.allow_reentry_after_halt

pub judge_fields :
    (guard : DrawdownGuard)
    → Kept guard (judge guard)
      × ((judge guard).peaks ≡ guard.peaks)
      × ((judge guard).peak_equity ≡ guard.peak_equity)
      × ((judge guard).all_time_peak ≡ guard.all_time_peak)
unfolding judge
judge_fields guard = ground arith

judge_halts :
    (guard : DrawdownGuard)
    → guard.allow_reentry_after_halt ≡ false
    → is_halted (judge guard).state
      ≡ is_halted guard.state || at_least guard.drawdown_all_time guard.halt_pct
unfolding judge
judge_halts guard sticky = ground arith

pub front_positive :
    (peaks : List Sample)
    → All (λ s. 0 < s.1) peaks
    → is_empty peaks ≡ false
    → 0 < front_equity peaks
front_positive [] all some_left = cc
front_positive (s ∷ peaks) (pos, all) some_left = pos

-- A reference peak and a deque that hold no zero.
next_peak_positive :
    (window : Option ℕ) (equity now : ℕ) (guard : DrawdownGuard)
    → 0 < equity
    → is_zero_window window ≡ false
    → All (λ s. 0 < s.1) guard.peaks
    → (peak : ℕ) × (peaks : List Sample) × (next_peak window equity (some now) guard
        ≡ ok (peak, peaks))
      × (0 < peak)
      × All (λ s. 0 < s.1) peaks
unfolding next_peak window_peaks
next_peak_positive none equity now guard pos ok_window all =
    (max guard.peak_equity equity, guard.peaks, refl, omega arith, all)
next_peak_positive (some window) equity now guard pos ok_window all =
    let kept = pop_smaller equity guard.peaks in
    let peaks = window_peaks window equity now guard.peaks in
    let positive =
      All-pop_expired (λ s. 0 < s.1) window now (kept ++ (now, equity) ∷ [])
        (All-snoc (λ s. 0 < s.1) kept (now, equity)
          (All-pop_smaller (λ s. 0 < s.1) equity guard.peaks all) pos) in
    (
      front_equity peaks,
      peaks,
      refl,
      front_positive peaks positive (pop_expired-ne-nil window now equity kept (ground arith)),
      positive,
    )

pub record Reflects (initial pct : ℕ) (history : List Sample) (guard : DrawdownGuard) : Type 0 where
  pub sticky : guard.allow_reentry_after_halt ≡ false
  pub halts_at : guard.halt_pct ≡ pct
  pub window : is_zero_window guard.peak_window_s ≡ false
  pub positive : All (λ s. 0 < s.1) guard.peaks
  pub peak : guard.all_time_peak ≡ greatest initial history
  pub halting : is_halted guard.state ≡ breached pct initial history

pub measure_returns :
    (equity : ℕ) (guard : DrawdownGuard)
    → 0 < guard.peak_equity
    → 0 < guard.all_time_peak
    → (measure equity guard).1
      ≡ judge (record guard {
        drawdown = drawdown_from guard.peak_equity equity;
        drawdown_all_time = drawdown_from guard.all_time_peak equity;
      })
measure_returns equity guard p q = ground arith

halting_step :
    (equity : ℕ) (h h' : Bool) (pct pct' peak peak' : ℕ)
    → h ≡ h'
    → pct ≡ pct'
    → peak ≡ peak'
    → h || at_least (drawdown_from (max peak equity) equity) pct
      ≡ h' || at_least (drawdown_from (max peak' equity) equity) pct'
halting_step equity h h' pct pct' peak peak' p q r = rw (p, q, r)

-- The update of a positive equity returns, and judges the guard with the new peaks.
update_judges :
    (equity now : ℕ) (guard : DrawdownGuard)
    → 0 < equity
    → is_zero_window guard.peak_window_s ≡ false
    → All (λ s. 0 < s.1) guard.peaks
    → (peak : ℕ) × (peaks : List Sample) × All (λ s. 0 < s.1) peaks
      × ((update equity (some now) guard).1
          ≡ judge (record guard {
            peak_equity = peak;
            peaks = peaks;
            all_time_peak = max guard.all_time_peak equity;
            drawdown = drawdown_from peak equity;
            drawdown_all_time = drawdown_from (max guard.all_time_peak equity) equity;
          }))
unfolding update
update_judges equity now guard pos window all =
    let (peak, peaks, found, peak_pos, all') =
      next_peak_positive guard.peak_window_s equity now guard pos window all in
    (
      peak,
      peaks,
      all',
      ap (λ r. (update_from equity r guard).1) found
          ∙ measure_returns equity
              (record guard {
                peak_equity = peak;
                peaks = peaks;
                all_time_peak = max guard.all_time_peak equity;
              })
              peak_pos (omega arith),
    )

pub update-Reflects :
    (initial pct now equity : ℕ) (history : List Sample) (guard : DrawdownGuard)
    → 0 < equity
    → Reflects initial pct history guard
    → Reflects initial pct ((now, equity) ∷ history) (update equity (some now) guard).1
update-Reflects initial pct now equity history guard pos r =
    let (peak, peaks, all, e) = update_judges equity now guard pos r.window r.positive in
    let judged : DrawdownGuard = record guard {
      peak_equity = peak;
      peaks = peaks;
      all_time_peak = max guard.all_time_peak equity;
      drawdown = drawdown_from peak equity;
      drawdown_all_time = drawdown_from (max guard.all_time_peak equity) equity;
    } in
    let (kept, same_peaks, _, same_all) = judge_fields judged in
    rw e (record {
      sticky = kept.reentry ∙ r.sticky;
      halts_at = kept.halt_pct ∙ r.halts_at;
      window = rw kept.window r.window;
      positive = rw same_peaks all;
      peak = same_all ∙ ap (λ p. max p equity) r.peak;
      halting =
          judge_halts judged r.sticky
          ∙ halting_step equity (is_halted guard.state) (breached pct initial history)
              guard.halt_pct pct guard.all_time_peak (greatest initial history) r.halting r.halts_at
              r.peak;
    })

-- The fields of a new guard.
pub record IsNew (pause pct initial : ℕ) (window : Option ℕ) (guard : DrawdownGuard) : Type 0 where
  pub pauses_at : guard.pause_pct ≡ pause
  pub halts_at : guard.halt_pct ≡ pct
  pub same_window : guard.peak_window_s ≡ window
  pub window_ok : is_zero_window guard.peak_window_s ≡ false
  pub sticky : guard.allow_reentry_after_halt ≡ false
  pub peak : guard.all_time_peak ≡ initial
  pub running : is_halted guard.state ≡ false
  pub no_peaks : guard.peaks ≡ []

pub new_drawdown_guard-IsNew :
    (pause pct initial : ℕ) (window : Option ℕ) (guard : DrawdownGuard)
    → new_drawdown_guard pause pct initial window false ≡ ok guard
    → IsNew pause pct initial window guard
unfolding new_drawdown_guard
new_drawdown_guard-IsNew pause pct initial window guard made = ground arith

new_guard-Reflects :
    (pause pct initial : ℕ) (window : Option ℕ) (guard : DrawdownGuard)
    → new_drawdown_guard pause pct initial window false ≡ ok guard
    → Reflects initial pct [] guard
new_guard-Reflects pause pct initial window guard made =
    let new = new_drawdown_guard-IsNew pause pct initial window guard made in
    record {
      sticky = new.sticky;
      halts_at = new.halts_at;
      window = new.window_ok;
      positive = rw new.no_peaks tt;
      peak = new.peak;
      halting = new.running;
    }

pub update_all-Reflects :
    (pause pct initial : ℕ) (window : Option ℕ) (history : List Sample) (guard : DrawdownGuard)
    → new_drawdown_guard pause pct initial window false ≡ ok guard
    → All (λ s. 0 < s.1) history
    → Reflects initial pct history (update_all history guard)
unfolding update_all
update_all-Reflects pause pct initial window [] guard made all =
    new_guard-Reflects pause pct initial window guard made
update_all-Reflects pause pct initial window ((now, equity) ∷ history) guard made (pos, all) =
    update-Reflects initial pct now equity history (update_all history guard) pos
      (update_all-Reflects pause pct initial window history guard made all)

-- A new guard that may not re-enter after a halt, with or without a trailing window, is halted
-- after updates with positive equities exactly when at some update the drawdown from the greatest
-- equity so far was the halt percentage or more: it never forgives, and never halts for less.
pub is_halted-update_all :
    (pause pct initial : ℕ) (window : Option ℕ) (history : List Sample) {guard : DrawdownGuard}
    → new_drawdown_guard pause pct initial window false ≡ ok guard
    → All (λ s. 0 < s.1) history
    → is_halted (update_all history guard).state ≡ breached pct initial history
is_halted-update_all pause pct initial window history {guard} made all =
    (update_all-Reflects pause pct initial window history guard made all).halting
