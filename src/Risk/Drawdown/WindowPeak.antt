-- ===== src/Risk/Drawdown/WindowPeak.antt =====
-- The trailing peak of `DrawdownGuard` (src/kalshi_bot/risk/drawdown_guard.py) against the history
-- of its samples.
use kalshi_trading_bot.Prelude.{
  ℕ, ◌+◌, ◌≤◌, ◌<◌, false, ◌≡◌, refl, List, [], ◌∷◌, ◌++◌, leb, arith, inl, inr, Bool-cases, All,
  is_empty, ◌∙◌, sym,
}
use kalshi_trading_bot.Risk.Drawdown.{Sample, pop_smaller, pop_expired, front_equity, window_peaks}
use kalshi_trading_bot.Risk.Drawdown.Peaks.{
  best, AllBefore, IsDescending, All-pop_smaller, All-pop_expired, All-snoc, IsDescending-push,
  IsDescending-pop_expired, best-push, best-pop_expired,
}

-- The deque after a history of samples, newest first.
unfoldable pub peaks_of : ℕ → List Sample → List Sample
peaks_of window [] = []
peaks_of window ((now, equity) ∷ history) = window_peaks window equity now (peaks_of window history)

-- The samples came in the order of time, the newest at `now` or before.
abbrev pub IsChronological : ℕ → List Sample → Type 0
IsChronological now [] = Unit
IsChronological now (s ∷ history) = (s.0 ≤ now) × IsChronological s.0 history

record Mirrors (window latest : ℕ) (history peaks : List Sample) : Type 0 where
  descending : IsDescending peaks
  before : AllBefore latest peaks
  same_best : (now : ℕ) → latest ≤ now → best window now peaks ≡ best window now history

AllBefore-later :
    (latest now : ℕ) (peaks : List Sample)
    → latest ≤ now
    → AllBefore latest peaks
    → AllBefore now peaks
AllBefore-later latest now [] le h = tt
AllBefore-later latest now (s ∷ peaks) le (p, h) =
    (omega arith, AllBefore-later latest now peaks le h)

Mirrors-later :
    (window latest now : ℕ) (history peaks : List Sample)
    → latest ≤ now
    → Mirrors window latest history peaks
    → Mirrors window now history peaks
Mirrors-later window latest now history peaks le m = record {
  descending = m.descending;
  before = AllBefore-later latest now peaks le m.before;
  same_best = λ later after_now. m.same_best later (omega arith);
}

window_peaks-Mirrors :
    (window latest now equity : ℕ) (history peaks : List Sample)
    → latest ≤ now
    → Mirrors window latest history peaks
    → Mirrors window now ((now, equity) ∷ history) (window_peaks window equity now peaks)
unfolding window_peaks
window_peaks-Mirrors window latest now equity history peaks le m =
    let pushed = pop_smaller equity peaks ++ (now, equity) ∷ [] in
    let older = AllBefore-later latest now peaks le m.before in
    record {
      descending =
          IsDescending-pop_expired window now pushed
            (IsDescending-push equity now peaks m.descending);
      before =
          All-pop_expired (λ s. s.0 ≤ now) window now pushed
            (All-snoc (λ s. s.0 ≤ now) (pop_smaller equity peaks) (now, equity)
              (All-pop_smaller (λ s. s.0 ≤ now) equity peaks older) (omega arith));
      same_best = λ later after_now.
          best-pop_expired window now later pushed after_now
          ∙ best-push window now later equity peaks after_now older
          ∙ rw (m.same_best later (omega arith)) (omega arith);
    }

peaks_of-Mirrors :
    (window now : ℕ) (history : List Sample)
    → IsChronological now history
    → Mirrors window now history (peaks_of window history)
unfolding peaks_of
peaks_of-Mirrors window now [] order = record {
  descending = tt;
  before = tt;
  same_best = λ later _. refl;
}
peaks_of-Mirrors window now ((time, equity) ∷ history) (le, order) =
    Mirrors-later window time now ((time, equity) ∷ history)
      (window_peaks window equity time (peaks_of window history)) le
      (window_peaks-Mirrors window time time equity history (peaks_of window history) (omega arith)
        (peaks_of-Mirrors window time history order))

-- In a descending deque whose front is in the window, the front is the best.
front_is_best :
    (window now : ℕ) (s : Sample) (peaks : List Sample)
    → All (λ x. x.1 ≤ s.1) peaks
    → now < s.0 + window
    → best window now (s ∷ peaks) ≡ s.1
front_is_best window now s [] below lt = ground arith
front_is_best window now s (x ∷ peaks) (p, below) lt =
    ground (arith, front_is_best window now s peaks below lt)

front-pop_expired :
    (window now : ℕ) (peaks : List Sample)
    → IsDescending peaks
    → front_equity (pop_expired window now peaks) ≡ best window now (pop_expired window now peaks)
unfolding pop_expired
front-pop_expired window now [] h = refl
front-pop_expired window now (s ∷ peaks) (below, h) = elim (Bool-cases (leb (s.0 + window) now)) [
  | inl gone ↦ rw gone (front-pop_expired window now peaks h)
  | inr kept ↦ rw kept (
      sym (
        front_is_best window now s (pop_expired window now peaks)
          (All-pop_expired (λ x. x.1 ≤ s.1) window now peaks below) (ground arith)))
]

pub pop_expired-ne-nil :
    (window now equity : ℕ) (peaks : List Sample)
    → 0 < window
    → is_empty (pop_expired window now (peaks ++ (now, equity) ∷ [])) ≡ false
unfolding pop_expired
pop_expired-ne-nil window now equity [] pos = ground arith
pop_expired-ne-nil window now equity (s ∷ peaks) pos =
    ground (arith, pop_expired-ne-nil window now equity peaks pos)

-- After samples in the order of time, the newest at `now`, with a window that is not zero, the
-- deque has a front, and its equity, the trailing peak, is the greatest equity of all samples
-- that lie in the window that ends at `now`.
pub front_equity-peaks_of :
    (window now equity : ℕ) (history : List Sample)
    → 0 < window
    → IsChronological now history
    → (is_empty (peaks_of window ((now, equity) ∷ history)) ≡ false)
      × (front_equity (peaks_of window ((now, equity) ∷ history))
          ≡ best window now ((now, equity) ∷ history))
unfolding peaks_of window_peaks
front_equity-peaks_of window now equity history pos order =
    let peaks = peaks_of window history in
    let m = peaks_of-Mirrors window now history order in
    let pushed = pop_smaller equity peaks ++ (now, equity) ∷ [] in
    let m' = window_peaks-Mirrors window now now equity history peaks (omega arith) m in
    (
      pop_expired-ne-nil window now equity (pop_smaller equity peaks) pos,
      front-pop_expired window now pushed (IsDescending-push equity now peaks m.descending)
          ∙ m'.same_best now (omega arith),
    )
