-- ===== src/Risk/LossStreak/Streak.antt =====
-- What `ConsecutiveLossGuard` (src/kalshi_bot/risk/daily_loss_guard.py) counts.
use kalshi_trading_bot.Prelude.{
  ℕ, suc, ◌+◌, ◌≤◌, Bool, ◌≡◌, List, [], ◌∷◌, leb, if◌then◌else◌, ok, length, length-append, arith,
}
use kalshi_trading_bot.Prelude.Int.{ℤ, pos, ltb_ℤ}
use kalshi_trading_bot.Risk.LossStreak.{
  ConsecutiveLossGuard, new_streak_guard, drop_oldest, push_outcome, record_outcome, reset_streak,
}

-- What happens to a guard: a closed trade's result, or a reset by a human.
pub data Event : Type 0 where
  closed : ℤ → Event
  reset : Event

unfoldable pub feed : Event → ConsecutiveLossGuard → ConsecutiveLossGuard
feed (closed pnl) guard = record_outcome pnl guard
feed reset guard = reset_streak guard

-- The events are newest first.
unfoldable pub feed_all : List Event → ConsecutiveLossGuard → ConsecutiveLossGuard
feed_all [] guard = guard
feed_all (event ∷ events) guard = feed event (feed_all events guard)

-- The losses since the last trade that was no loss, the last reset, or the start.
abbrev pub losing_run : List Event → ℕ
losing_run [] = 0
losing_run (reset ∷ events) = 0
losing_run (closed pnl ∷ events) =
    let before = losing_run events in if ltb_ℤ pnl (pos 0) then before + 1 else 0

pub record Tracks (limit run : ℕ) (guard : ConsecutiveLossGuard) : Type 0 where
  pub same_limit : guard.max_consecutive_losses ≡ limit
  pub same_run : guard.streak ≡ run
  pub halted_iff : guard.halted ≡ leb limit run
  pub bounded : length guard.recent_outcomes ≤ limit

drop_oldest-le :
    (outcomes : List Bool) (n : ℕ)
    → 1 ≤ n
    → length outcomes ≤ n
    → suc (length (drop_oldest outcomes)) ≤ n
drop_oldest-le [] n one h = one
drop_oldest-le (x ∷ xs) n one h = h

length-push_outcome :
    (limit : ℕ) (outcomes : List Bool) (outcome : Bool)
    → 1 ≤ limit
    → length outcomes ≤ limit
    → length (push_outcome limit outcomes outcome) ≤ limit
unfolding push_outcome
length-push_outcome limit outcomes outcome one h = ground (
  arith,
  length-append {0} outcomes (outcome ∷ []),
  length-append {0} (drop_oldest outcomes) (outcome ∷ []),
  drop_oldest-le outcomes limit one h,
)

record_outcome-Tracks :
    (limit run : ℕ) (pnl : ℤ) (guard : ConsecutiveLossGuard)
    → 1 ≤ limit
    → Tracks limit run guard
    → Tracks limit (if ltb_ℤ pnl (pos 0) then run + 1 else 0) (record_outcome pnl guard)
unfolding record_outcome
record_outcome-Tracks limit run pnl guard one h =
    ground (arith, length-push_outcome limit guard.recent_outcomes (ltb_ℤ pnl (pos 0)))

feed-Tracks :
    (limit : ℕ) (event : Event) (events : List Event) (guard : ConsecutiveLossGuard)
    → 1 ≤ limit
    → Tracks limit (losing_run events) guard
    → Tracks limit (losing_run (event ∷ events)) (feed event guard)
unfolding feed reset_streak
feed-Tracks limit (closed pnl) events guard one h =
    record_outcome-Tracks limit (losing_run events) pnl guard one h
feed-Tracks limit reset events guard one h = ground arith

new_streak_guard-Tracks :
    (limit : ℕ) (guard : ConsecutiveLossGuard)
    → new_streak_guard limit ≡ ok guard
    → (1 ≤ limit) × Tracks limit 0 guard
unfolding new_streak_guard
new_streak_guard-Tracks limit guard made = ground arith

-- After any trades and resets, a new guard's streak is the number of losses since the last trade
-- that was no loss, the last reset or the start, it halts exactly when that number has reached
-- the limit, and it keeps at most that many outcomes.
pub feed_all-Tracks :
    (limit : ℕ) (events : List Event) {guard : ConsecutiveLossGuard}
    → new_streak_guard limit ≡ ok guard
    → Tracks limit (losing_run events) (feed_all events guard)
unfolding feed_all
feed_all-Tracks limit [] {guard} made = (new_streak_guard-Tracks limit guard made).1
feed_all-Tracks limit (event ∷ events) {guard} made =
    feed-Tracks limit event events (feed_all events guard)
      (new_streak_guard-Tracks limit guard made).0 (feed_all-Tracks limit events made)
