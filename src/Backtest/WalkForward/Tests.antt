-- ===== src/Backtest/WalkForward/Tests.antt =====
-- Folds of a concrete range.
use kalshi_trading_bot.Prelude.{List, [], ◌∷◌, none, true, ◌≡◌, refl, ok, All, arith}
use kalshi_trading_bot.Prelude.Int.{pos, ◌+ℤ◌}
use kalshi_trading_bot.Backtest.WalkForward.{
  WalkForwardFold, rolling_folds, purged_walkforward_folds, fold_at, fold_loop, expanded,
}
use kalshi_trading_bot.Backtest.WalkForward.Loop.{Loops, rolling_folds_end}
use kalshi_trading_bot.Backtest.WalkForward.Windows.{
  IsSeparated, IsTiling, purged_folds-IsSeparated, rolling_folds-IsTiling,
}

rolling_folds_end_example :
    (folds : List WalkForwardFold) × (rolling_folds 0 100 (pos 30) (pos 20) (pos 5) none ≡ ok folds)
    × Loops 30 20 5 20 100 0 35 folds
rolling_folds_end_example =
    rolling_folds_end 0 100 (pos 30) (pos 20) (pos 5) none (omega arith) (omega arith) (omega arith)
      (omega arith) (omega arith)

abbrev folds : List WalkForwardFold
folds =
    fold_at 30 20 5 100 0 35
    ∷ fold_at 30 20 5 100 1 55
    ∷ fold_at 30 20 5 100 2 75
    ∷ fold_at 30 20 5 100 3 95
    ∷ []

folds_made : rolling_folds 0 100 (pos 30) (pos 20) (pos 5) none ≡ ok folds
unfolding rolling_folds fold_loop
folds_made = refl

rolling_folds-IsTiling_example : IsTiling 35 100 folds
rolling_folds-IsTiling_example =
    rolling_folds-IsTiling 0 100 (pos 30) (pos 20) (pos 5) none refl folds_made

abbrev purged : List WalkForwardFold
purged = expanded 0 (fold_at 30 40 5 100 0 35) ∷ expanded 0 (fold_at 30 40 5 100 1 75) ∷ []

purged_made : purged_walkforward_folds 0 100 (pos 30) (pos 40) (pos 3) (pos 2) true none ≡ ok purged
unfolding purged_walkforward_folds rolling_folds fold_loop ◌+ℤ◌
purged_made = refl

purged_folds-IsSeparated_example : All (IsSeparated 0 100 5) purged
purged_folds-IsSeparated_example =
    purged_folds-IsSeparated 0 100 (pos 30) (pos 40) (pos 3) (pos 2) true none purged_made
