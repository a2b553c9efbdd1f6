-- ===== src/Backtest/WalkForward/Loop.antt =====
-- The loop of `rolling_folds` (src/kalshi_bot/backtest/walkforward.py), without fuel.
use kalshi_trading_bot.Prelude.{
  ℕ, zero, suc, ◌+◌, ◌≤◌, ◌<◌, ◌≡◌, Option, List, [], ◌∷◌, arith, inl, inr, Bool-cases, ltb, ok,
}
use kalshi_trading_bot.Prelude.Int.{ℤ, pos, pos_part, ◌≤ℤ◌, ◌<ℤ◌}
use kalshi_trading_bot.Backtest.WalkForward.{
  WalkForwardFold, fold_at, fold_loop, rolling_folds, step_of,
}

-- `while test_start < end_ts`, as the steps of the source's loop: it makes these folds from this
-- index and test start, and ends.
pub data Loops (train test embargo step end_ts : ℕ) : ℕ → ℕ → List WalkForwardFold → Type 0 where
  ends :
      {index test_start : ℕ}
      → end_ts ≤ test_start
      → Loops train test embargo step end_ts index test_start []
  turns :
      {index test_start : ℕ} {rest : List WalkForwardFold}
      → test_start < end_ts
      → Loops train test embargo step end_ts (suc index) (test_start + step) rest
      → Loops train test embargo step end_ts index test_start
          (fold_at train test embargo end_ts index test_start ∷ rest)

module _ (train test embargo step end_ts : ℕ) (moves : 0 < step) where
  fold_loop-Loops :
      (fuel index test_start : ℕ)
      → end_ts ≤ test_start + fuel
      → Loops train test embargo step end_ts index test_start
          (fold_loop train test embargo step end_ts fuel index test_start)
  unfolding fold_loop
  fold_loop-Loops zero index test_start enough = Loops.ends (omega arith)
  fold_loop-Loops (suc fuel) index test_start enough = elim (Bool-cases (ltb test_start end_ts)) [
    | inl before ↦ rw before (
        Loops.turns (ground arith)
          (fold_loop-Loops fuel (suc index) (test_start + step) (omega arith)))
    | inr reached ↦ rw reached (Loops.ends (ground arith))
  ]

-- For a range that is not empty, windows above zero, an embargo that is not negative and a step
-- above zero (where none is given, or 0, the test window), `rolling_folds` returns, and its folds
-- are those with which the source's loop ends.
pub rolling_folds_end :
    (start_ts end_ts : ℕ) (train test embargo : ℤ) (step_seconds : Option ℤ)
    → start_ts < end_ts
    → pos 0 <ℤ train
    → pos 0 <ℤ test
    → pos 0 ≤ℤ embargo
    → pos 0 <ℤ step_of step_seconds test
    → (folds : List WalkForwardFold) × (rolling_folds start_ts end_ts train test embargo
          step_seconds
        ≡ ok folds)
      × Loops
          (pos_part train)
          (pos_part test)
          (pos_part embargo)
          (pos_part (step_of step_seconds test))
          end_ts
          0
          (start_ts + pos_part train + pos_part embargo)
          folds
unfolding rolling_folds
rolling_folds_end start_ts end_ts train test embargo step_seconds range trains tests embargoes
      steps =
    let step = pos_part (step_of step_seconds test) in
    let first = start_ts + pos_part train + pos_part embargo in
    (
      fold_loop (pos_part train) (pos_part test) (pos_part embargo) step end_ts end_ts 0 first,
      ground arith,
      fold_loop-Loops (pos_part train) (pos_part test) (pos_part embargo) step end_ts (ground arith)
          end_ts 0 first (omega arith),
    )
