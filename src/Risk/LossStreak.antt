-- ===== src/Risk/LossStreak.antt =====
-- `ConsecutiveLossGuard` of src/kalshi_bot/risk/daily_loss_guard.py.
pub mod Streak
mod Tests
use kalshi_trading_bot.Prelude.{
  ℕ, suc, ◌+◌, ◌-◌, Bool, true, false, not, Option, none, some, List, [], ◌∷◌, ◌++◌, leb, ltb,
  if◌then◌else◌, Outcome, ok, raised, length,
}
use kalshi_trading_bot.Prelude.Int.{ℤ, pos, ltb_ℤ}

pub record ConsecutiveLossGuard : Type 0 where
  pub max_consecutive_losses : ℕ
  pub streak : ℕ
  pub halted : Bool
  pub recent_outcomes : List Bool  -- oldest first, at most `max_consecutive_losses` of them

pub data StreakError : Type 0 where
  limit_below_one : StreakError

-- `ConsecutiveLossGuard.__init__`
unfoldable pub new_streak_guard : ℕ → Outcome StreakError ConsecutiveLossGuard
new_streak_guard max_consecutive_losses =
    if ltb max_consecutive_losses 1
    then raised limit_below_one
    else ok (record {
      max_consecutive_losses = max_consecutive_losses;
      streak = 0;
      halted = false;
      recent_outcomes = [];
    })

abbrev pub drop_oldest : List Bool → List Bool
drop_oldest [] = []
drop_oldest (_ ∷ xs) = xs

-- `append` on a deque with `maxlen=limit`, which is at least 1: a full deque drops its oldest item.
unfoldable pub push_outcome : ℕ → List Bool → Bool → List Bool
push_outcome limit outcomes outcome =
    (if ltb (length outcomes) limit then outcomes else drop_oldest outcomes) ++ outcome ∷ []

-- `ConsecutiveLossGuard.record_trade_pnl`
unfoldable pub record_outcome : ℤ → ConsecutiveLossGuard → ConsecutiveLossGuard
record_outcome pnl guard =
    let is_loss = ltb_ℤ pnl (pos 0) in
    let streak = if is_loss then guard.streak + 1 else 0 in
    let halted = if is_loss then guard.halted else false in
    record guard {
      streak = streak;
      halted = if leb guard.max_consecutive_losses streak then true else halted;
      recent_outcomes = push_outcome guard.max_consecutive_losses guard.recent_outcomes is_loss;
    }

-- `ConsecutiveLossGuard.allows_new_entries`
unfoldable pub streak_allows : ConsecutiveLossGuard → Bool
streak_allows guard = not guard.halted

-- `ConsecutiveLossGuard.reset`
unfoldable pub reset_streak : ConsecutiveLossGuard → ConsecutiveLossGuard
reset_streak guard = record guard { streak = 0; halted = false; recent_outcomes = [] }
