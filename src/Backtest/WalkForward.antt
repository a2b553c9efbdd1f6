-- ===== src/Backtest/WalkForward.antt =====
-- Walk-forward folds (src/kalshi_bot/backtest/walkforward.py). A time is a whole number of seconds; a length of
-- time that a caller gives may be negative.
pub mod Loop
pub mod Windows
mod Tests
use Prim.Native.Nat.{min}
use kalshi_trading_bot.Prelude.{
  ℕ, zero, suc, ◌+◌, ◌-◌, Bool, true, false, not, ◌||◌, Option, none, some, List, [], ◌∷◌, map, ltb,
  if◌then◌else◌, Outcome, ok, raised,
}
use kalshi_trading_bot.Prelude.Int.{ℤ, pos, pos_part, ◌+ℤ◌, ltb_ℤ, leb_ℤ}

pub record WalkForwardFold : Type 0 where
  pub index : ℕ
  pub train_start_ts : ℕ
  pub train_end_ts : ℕ
  pub test_start_ts : ℕ
  pub test_end_ts : ℕ
  pub embargo_seconds : ℕ

pub data FoldError : Type 0 where
  invalid_window negative_embargo bad_step negative_lookback : FoldError

-- The fold whose test begins at a time.
abbrev pub fold_at : ℕ → ℕ → ℕ → ℕ → ℕ → ℕ → WalkForwardFold
fold_at train test embargo end_ts index test_start = record {
  index = index;
  train_start_ts = test_start - embargo - train;
  train_end_ts = test_start - embargo;
  test_start_ts = test_start;
  test_end_ts = min (test_start + test) end_ts;
  embargo_seconds = embargo;
}

-- `while test_start < end_ts`, on fuel.
unfoldable pub fold_loop : (train test embargo step end_ts : ℕ) → ℕ → ℕ → ℕ → List WalkForwardFold
fold_loop train test embargo step end_ts zero index test_start = []
fold_loop train test embargo step end_ts (suc fuel) index test_start =
    let rest = fold_loop train test embargo step end_ts fuel (suc index) (test_start + step) in
    if ltb test_start end_ts then fold_at train test embargo end_ts index test_start ∷ rest else []

-- `step_seconds or test_seconds`
abbrev pub step_of : Option ℤ → ℤ → ℤ
step_of none test = test
step_of (some (pos zero)) test = test
step_of (some step) test = step

-- The arguments are checked in the source's order; the fuel is `end_ts`.
unfoldable pub rolling_folds :
    ℕ → ℕ → ℤ → ℤ → ℤ → Option ℤ → Outcome FoldError (List WalkForwardFold)
rolling_folds start_ts end_ts train_seconds test_seconds embargo_seconds step_seconds =
    let step = step_of step_seconds test_seconds in
    if not (ltb start_ts end_ts) || (leb_ℤ train_seconds (pos 0) || leb_ℤ test_seconds (pos 0))
    then raised invalid_window
    else (if ltb_ℤ embargo_seconds (pos 0)
        then raised negative_embargo
        else (if leb_ℤ step (pos 0)
            then raised bad_step
            else ok (
                fold_loop (pos_part train_seconds) (pos_part test_seconds)
                  (pos_part embargo_seconds) (pos_part step) end_ts end_ts 0
                  (start_ts + pos_part train_seconds + pos_part embargo_seconds))))

abbrev pub expanded : ℕ → WalkForwardFold → WalkForwardFold
expanded start_ts fold = record fold { train_start_ts = start_ts }

abbrev pub expand :
    Bool → ℕ → Outcome FoldError (List WalkForwardFold) → Outcome FoldError (List WalkForwardFold)
expand expanding start_ts (raised e) = raised e
expand true start_ts (ok folds) = ok (map (expanded start_ts) folds)
expand false start_ts (ok folds) = ok folds

unfoldable pub purged_walkforward_folds :
    ℕ → ℕ → ℤ → ℤ → ℤ → ℤ → Bool → Option ℤ → Outcome FoldError (List WalkForwardFold)
purged_walkforward_folds start_ts end_ts train_seconds test_seconds max_lookback_seconds
      prediction_horizon_seconds expanding step_seconds =
    if ltb_ℤ max_lookback_seconds (pos 0) || ltb_ℤ prediction_horizon_seconds (pos 0)
    then raised negative_lookback
    else expand expanding start_ts (
        rolling_folds start_ts end_ts train_seconds test_seconds
          (max_lookback_seconds +ℤ prediction_horizon_seconds) step_seconds)
