-- ===== src/Risk/Drawdown/Pausing.antt =====
-- The entry gate of a `DrawdownGuard` with a trailing window
-- (src/kalshi_bot/risk/drawdown_guard.py), over a whole history of updates.
use Prim.Native.Nat.{max}
use kalshi_trading_bot.Prelude.{
  ℕ, ◌<◌, false, not, ◌≡◌, some, List, [], ◌∷◌, ◌&&◌, arith, All, ap, ◌∙◌, ok,
}
use kalshi_trading_bot.Risk.Drawdown.{
  Sample, DrawdownGuard, new_drawdown_guard, front_equity, window_peaks, at_least, drawdown_from,
  next_peak, is_halted, judge, measure, update, drawdown_allows,
}
use kalshi_trading_bot.Risk.Drawdown.Peaks.{best}
use kalshi_trading_bot.Risk.Drawdown.WindowPeak.{peaks_of, IsChronological, front_equity-peaks_of}
use kalshi_trading_bot.Risk.Drawdown.Halting.{
  update_all, breached, update_all-Reflects, measure_returns, new_drawdown_guard-IsNew,
  is_halted-update_all,
}

judge_allows :
    (guard : DrawdownGuard)
    → guard.allow_reentry_after_halt ≡ false
    → drawdown_allows (judge guard)
      ≡ not (is_halted (judge guard).state) && not (at_least guard.drawdown guard.pause_pct)
unfolding judge drawdown_allows
judge_allows guard sticky = ground arith

-- A guard with a window whose deque is that of its history.
record Trails (pause window : ℕ) (history : List Sample) (guard : DrawdownGuard) : Type 0 where
  pauses_at : guard.pause_pct ≡ pause
  trailing : guard.peak_window_s ≡ some window
  deque : guard.peaks ≡ peaks_of window history

windowed_update :
    (equity now window : ℕ) (guard : DrawdownGuard)
    → guard.peak_window_s ≡ some window
    → (update equity (some now) guard).1 ≡ (
        let peaks = window_peaks window equity now guard.peaks in
        (measure equity (record guard {
          peak_equity = front_equity peaks;
          peaks = peaks;
          all_time_peak = max guard.all_time_peak equity;
        })).1)
unfolding update next_peak
windowed_update equity now window guard trailing = rw trailing

measure_keeps :
    (equity : ℕ) (guard : DrawdownGuard)
    → ((measure equity guard).1.pause_pct ≡ guard.pause_pct)
      × ((measure equity guard).1.peak_window_s ≡ guard.peak_window_s)
      × ((measure equity guard).1.peaks ≡ guard.peaks)
unfolding judge
measure_keeps equity guard = ground arith

update-Trails :
    (pause window now equity : ℕ) (history : List Sample) (guard : DrawdownGuard)
    → Trails pause window history guard
    → Trails pause window ((now, equity) ∷ history) (update equity (some now) guard).1
unfolding peaks_of
update-Trails pause window now equity history guard t =
    let peaks = window_peaks window equity now guard.peaks in
    let next : DrawdownGuard = record guard {
      peak_equity = front_equity peaks;
      peaks = peaks;
      all_time_peak = max guard.all_time_peak equity;
    } in
    let (same_pause, same_window, same_peaks) = measure_keeps equity next in
    rw (windowed_update equity now window guard t.trailing) (record {
      pauses_at = same_pause ∙ t.pauses_at;
      trailing = same_window ∙ t.trailing;
      deque = same_peaks ∙ ap (window_peaks window equity now) t.deque;
    })

new_guard-Trails :
    (pause pct initial window : ℕ) (guard : DrawdownGuard)
    → new_drawdown_guard pause pct initial (some window) false ≡ ok guard
    → Trails pause window [] guard
unfolding peaks_of
new_guard-Trails pause pct initial window guard made =
    let new = new_drawdown_guard-IsNew pause pct initial (some window) guard made in
    record { pauses_at = new.pauses_at; trailing = new.same_window; deque = new.no_peaks }

update_all-Trails :
    (pause pct initial window : ℕ) (history : List Sample) (guard : DrawdownGuard)
    → new_drawdown_guard pause pct initial (some window) false ≡ ok guard
    → Trails pause window history (update_all history guard)
unfolding update_all
update_all-Trails pause pct initial window [] guard made =
    new_guard-Trails pause pct initial window guard made
update_all-Trails pause pct initial window ((now, equity) ∷ history) guard made =
    update-Trails pause window now equity history (update_all history guard)
      (update_all-Trails pause pct initial window history guard made)

best_positive :
    (window now equity : ℕ) (history : List Sample)
    → 0 < window
    → 0 < equity
    → 0 < best window now ((now, equity) ∷ history)
best_positive window now equity history w e = ground arith

window_positive :
    (pause pct initial window : ℕ) (guard : DrawdownGuard)
    → new_drawdown_guard pause pct initial (some window) false ≡ ok guard
    → 0 < window
unfolding new_drawdown_guard
window_positive pause pct initial window guard made = ground arith

update_allows :
    (pause window now equity peak : ℕ) (history : List Sample) (guard : DrawdownGuard)
    → Trails pause window history guard
    → guard.allow_reentry_after_halt ≡ false
    → front_equity (peaks_of window ((now, equity) ∷ history)) ≡ peak
    → 0 < peak
    → 0 < equity
    → drawdown_allows (update equity (some now) guard).1
      ≡ not (is_halted (update equity (some now) guard).1.state)
        && not (at_least (drawdown_from peak equity) pause)
unfolding peaks_of
update_allows pause window now equity peak history guard t sticky top pos e =
    let peaks = window_peaks window equity now guard.peaks in
    let same : front_equity peaks ≡ peak =
      ap (λ p. front_equity (window_peaks window equity now p)) t.deque ∙ top in
    let next : DrawdownGuard = record guard {
      peak_equity = front_equity peaks;
      peaks = peaks;
      all_time_peak = max guard.all_time_peak equity;
    } in
    let measured : DrawdownGuard = record next {
      drawdown = drawdown_from (front_equity peaks) equity;
      drawdown_all_time = drawdown_from (max guard.all_time_peak equity) equity;
    } in
    rw
      (windowed_update equity now window guard t.trailing
        ∙ measure_returns equity next (omega arith) (omega arith))
      (judge_allows measured sticky
        ∙ ap
            (λ p.
              not (is_halted (judge measured).state)
              && not (at_least (drawdown_from p equity) guard.pause_pct))
            same
        ∙ ap
            (λ p.
              not (is_halted (judge measured).state)
              && not (at_least (drawdown_from peak equity) p))
            t.pauses_at)

-- A new guard with a trailing window that may not re-enter after a halt allows entries, after
-- updates with positive equities in the order of time, exactly when no drawdown from the greatest
-- equity so far has ever been the halt percentage or more, and the last drawdown from the
-- greatest equity in the window that ends now is below the pause percentage.
pub drawdown_allows-update_all :
    (pause pct initial window now equity : ℕ) (history : List Sample) {guard : DrawdownGuard}
    → new_drawdown_guard pause pct initial (some window) false ≡ ok guard
    → All (λ s. 0 < s.1) ((now, equity) ∷ history)
    → IsChronological now history
    → drawdown_allows (update_all ((now, equity) ∷ history) guard)
      ≡ not (breached pct initial ((now, equity) ∷ history))
        && not (at_least (drawdown_from (best window now ((now, equity) ∷ history)) equity) pause)
unfolding update_all
drawdown_allows-update_all pause pct initial window now equity history {guard} made (pos, all)
      order =
    let before = update_all history guard in
    let w = window_positive pause pct initial window guard made in
    let reflects = update_all-Reflects pause pct initial (some window) history guard made all in
    let top = front_equity-peaks_of window now equity history w order in
    update_allows pause window now equity (best window now ((now, equity) ∷ history)) history before
      (update_all-Trails pause pct initial window history guard made) reflects.sticky top.1
      (best_positive window now equity history w pos) pos
    ∙ ap
        (λ b.
          not b
          && not
              (at_least (drawdown_from (best window now ((now, equity) ∷ history)) equity) pause))
        (is_halted-update_all pause pct initial (some window) ((now, equity) ∷ history) made
          (pos, all))
