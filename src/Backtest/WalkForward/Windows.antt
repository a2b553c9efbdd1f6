-- ===== src/Backtest/WalkForward/Windows.antt =====
-- The windows of the folds of src/kalshi_bot/backtest/walkforward.py.
use Prim.Native.Nat.{min}
use kalshi_trading_bot.Prelude.{
  ℕ, zero, suc, ◌+◌, ◌≤◌, ◌<◌, ◌≡◌, refl, Bool, true, false, Option, List, [], ◌∷◌, map, All, arith,
  inl, inr, Bool-cases, ltb, leb, subst, Outcome, ok, raised,
}
use kalshi_trading_bot.Prelude.Int.{ℤ, pos_part, ◌+ℤ◌}
use kalshi_trading_bot.Backtest.WalkForward.{
  WalkForwardFold, fold_loop, rolling_folds, purged_walkforward_folds, expanded, expand, FoldError,
  step_of,
}

-- A fold trains inside the range, tests a part of the range that is not empty, and nothing of the `embargo`
-- before its test is in its training.
pub record IsSeparated (start_ts end_ts embargo : ℕ) (fold : WalkForwardFold) : Type 0 where
  pub from_start : start_ts ≤ fold.train_start_ts
  pub trains : fold.train_start_ts < fold.train_end_ts
  pub gap : fold.train_end_ts + embargo ≡ fold.test_start_ts
  pub tests : fold.test_start_ts < fold.test_end_ts
  pub to_end : fold.test_end_ts ≤ end_ts

-- The tests follow one another without a gap or an overlap, from a time to the end.
abbrev pub IsTiling : ℕ → ℕ → List WalkForwardFold → Type 0
IsTiling from end_ts [] = end_ts ≤ from
IsTiling from end_ts (fold ∷ folds) =
    (fold.test_start_ts ≡ from) × IsTiling fold.test_end_ts end_ts folds

module _ (start_ts train test embargo step end_ts : ℕ) where
  fold_loop-IsSeparated :
      (fuel index test_start : ℕ)
      → 0 < train
      → 0 < test
      → start_ts + train + embargo ≤ test_start
      → All
          (IsSeparated start_ts end_ts embargo)
          (fold_loop train test embargo step end_ts fuel index test_start)
  unfolding fold_loop
  fold_loop-IsSeparated zero index test_start trains tests later = tt
  fold_loop-IsSeparated (suc fuel) index test_start trains tests later =
      elim (Bool-cases (ltb test_start end_ts)) [
        | inl before ↦ rw before (
          record {
            from_start = omega arith;
            trains = omega arith;
            gap = omega arith;
            tests = ground arith;
            to_end = ground arith;
          },
          fold_loop-IsSeparated fuel (suc index) (test_start + step) trains tests (omega arith),
        )
        | inr reached ↦ rw reached tt
      ]

fold_loop_past :
    (train test embargo step end_ts fuel index test_start : ℕ)
    → end_ts ≤ test_start
    → fold_loop train test embargo step end_ts fuel index test_start ≡ []
unfolding fold_loop
fold_loop_past train test embargo step end_ts zero index test_start past = refl
fold_loop_past train test embargo step end_ts (suc fuel) index test_start past = ground arith

fold_loop-IsTiling :
    (train test embargo end_ts fuel index test_start : ℕ)
    → 0 < test
    → end_ts ≤ test_start + fuel
    → IsTiling test_start end_ts (fold_loop train test embargo test end_ts fuel index test_start)
unfolding fold_loop
fold_loop-IsTiling train test embargo end_ts zero index test_start tests enough = omega arith
fold_loop-IsTiling train test embargo end_ts (suc fuel) index test_start tests enough =
    elim (Bool-cases (ltb test_start end_ts)) [
      | inl before ↦ rw before (
        refl,
        elim (Bool-cases (leb (test_start + test) end_ts)) [
          | inl inside ↦
              let e : min (test_start + test) end_ts ≡ test_start + test = ground arith in
              rw e (
                fold_loop-IsTiling train test embargo end_ts fuel (suc index) (test_start + test)
                  tests (omega arith))
          | inr outside ↦
              rw
                (fold_loop_past train test embargo test end_ts fuel (suc index) (test_start + test)
                  (ground arith))
                (ground arith)
        ],
      )
      | inr reached ↦ rw reached (ground arith)
    ]

expanded-IsSeparated :
    (start_ts end_ts embargo : ℕ) (folds : List WalkForwardFold)
    → All (IsSeparated start_ts end_ts embargo) folds
    → All (IsSeparated start_ts end_ts embargo) (map (expanded start_ts) folds)
expanded-IsSeparated start_ts end_ts embargo [] h = tt
expanded-IsSeparated start_ts end_ts embargo (fold ∷ folds) (separated, h) = (
  record {
    from_start = omega arith;
    trains = omega (arith, separated.from_start, separated.trains);
    gap = separated.gap;
    tests = separated.tests;
    to_end = separated.to_end;
  },
  expanded-IsSeparated start_ts end_ts embargo folds h,
)

-- What a successful call has checked, and its result.
rolling_folds_made :
    (start_ts end_ts : ℕ) (train test embargo : ℤ) (step_seconds : Option ℤ)
    (folds : List WalkForwardFold)
    → rolling_folds start_ts end_ts train test embargo step_seconds ≡ ok folds
    → (0 < pos_part train)
      × (0 < pos_part test)
      × (fold_loop
            (pos_part train)
            (pos_part test)
            (pos_part embargo)
            (pos_part (step_of step_seconds test))
            end_ts
            end_ts
            0
            (start_ts + pos_part train + pos_part embargo)
          ≡ folds)
unfolding rolling_folds
rolling_folds_made start_ts end_ts train test embargo step_seconds folds made = ground arith

rolling_folds-IsSeparated :
    (start_ts end_ts : ℕ) (train test embargo : ℤ) (step_seconds : Option ℤ)
    (folds : List WalkForwardFold)
    → rolling_folds start_ts end_ts train test embargo step_seconds ≡ ok folds
    → All (IsSeparated start_ts end_ts (pos_part embargo)) folds
rolling_folds-IsSeparated start_ts end_ts train test embargo step_seconds folds made =
    let (trains, tests, e) =
      rolling_folds_made start_ts end_ts train test embargo step_seconds folds made in
    subst (λ fs. All (IsSeparated start_ts end_ts (pos_part embargo)) fs) e
      (fold_loop-IsSeparated start_ts (pos_part train) (pos_part test) (pos_part embargo)
        (pos_part (step_of step_seconds test)) end_ts end_ts 0
        (start_ts + pos_part train + pos_part embargo) trains tests (omega arith))

expand-IsSeparated :
    (start_ts end_ts embargo : ℕ) (expanding : Bool)
    (rolled : Outcome FoldError (List WalkForwardFold)) (folds : List WalkForwardFold)
    → ((fs : List WalkForwardFold) → rolled ≡ ok fs → All (IsSeparated start_ts end_ts embargo) fs)
    → expand expanding start_ts rolled ≡ ok folds
    → All (IsSeparated start_ts end_ts embargo) folds
expand-IsSeparated start_ts end_ts embargo expanding (raised e) folds h made = cc
expand-IsSeparated start_ts end_ts embargo true (ok fs) folds h made =
    let e : map (expanded start_ts) fs ≡ folds = cc in
    subst (λ xs. All (IsSeparated start_ts end_ts embargo) xs) e
      (expanded-IsSeparated start_ts end_ts embargo fs (h fs refl))
expand-IsSeparated start_ts end_ts embargo false (ok fs) folds h made = h folds made

-- The two bounds that `purged_walkforward_folds` adds are not negative.
purged_folds_made :
    (start_ts end_ts : ℕ) (train test lookback horizon : ℤ) (expanding : Bool)
    (step_seconds : Option ℤ) (folds : List WalkForwardFold)
    → purged_walkforward_folds start_ts end_ts train test lookback horizon expanding step_seconds
      ≡ ok folds
    → (pos_part (lookback +ℤ horizon) ≡ pos_part lookback + pos_part horizon)
      × (expand expanding start_ts
            (rolling_folds start_ts end_ts train test (lookback +ℤ horizon) step_seconds)
          ≡ ok folds)
unfolding purged_walkforward_folds ◌+ℤ◌
purged_folds_made start_ts end_ts train test lookback horizon expanding step_seconds folds made =
    ground arith

-- Every fold that is made trains inside the range and tests, later, a part of the range that is
-- not empty, and between its training and its test there is exactly the embargo: the longest
-- lookback and the prediction horizon together. This holds of rolling and of expanding training
-- windows.
pub purged_folds-IsSeparated :
    (start_ts end_ts : ℕ) (train test lookback horizon : ℤ) (expanding : Bool)
    (step_seconds : Option ℤ) {folds : List WalkForwardFold}
    → purged_walkforward_folds start_ts end_ts train test lookback horizon expanding step_seconds
      ≡ ok folds
    → All (IsSeparated start_ts end_ts (pos_part lookback + pos_part horizon)) folds
purged_folds-IsSeparated start_ts end_ts train test lookback horizon expanding step_seconds {folds}
      made =
    let (e, made') =
      purged_folds_made start_ts end_ts train test lookback horizon expanding step_seconds folds
        made in
    subst (λ n. All (IsSeparated start_ts end_ts n) folds) e
      (expand-IsSeparated start_ts end_ts (pos_part (lookback +ℤ horizon)) expanding
        (rolling_folds start_ts end_ts train test (lookback +ℤ horizon) step_seconds) folds
        (rolling_folds-IsSeparated start_ts end_ts train test (lookback +ℤ horizon) step_seconds)
        made')

-- Where the step is the test window, the tests of the folds that are made follow one another
-- without a gap or an overlap, from the end of the first training and its embargo to the end of
-- the range.
pub rolling_folds-IsTiling :
    (start_ts end_ts : ℕ) (train test embargo : ℤ) (step_seconds : Option ℤ)
    {folds : List WalkForwardFold}
    → step_of step_seconds test ≡ test
    → rolling_folds start_ts end_ts train test embargo step_seconds ≡ ok folds
    → IsTiling (start_ts + pos_part train + pos_part embargo) end_ts folds
rolling_folds-IsTiling start_ts end_ts train test embargo step_seconds {folds} by_test made =
    let (_, tests, e) =
      rolling_folds_made start_ts end_ts train test embargo step_seconds folds made in
    let first = start_ts + pos_part train + pos_part embargo in
    subst (λ fs. IsTiling first end_ts fs) e
      (rw by_test (
        fold_loop-IsTiling (pos_part train) (pos_part test) (pos_part embargo) end_ts end_ts 0 first
          tests (omega arith)))
