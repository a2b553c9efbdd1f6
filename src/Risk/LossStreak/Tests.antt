-- ===== src/Risk/LossStreak/Tests.antt =====
-- The streak guard on concrete trades.
use kalshi_trading_bot.Prelude.{false, List, [], ◌∷◌, ◌≡◌, refl, ok}
use kalshi_trading_bot.Prelude.Int.{pos, negsuc}
use kalshi_trading_bot.Risk.LossStreak.{ConsecutiveLossGuard, new_streak_guard}
use kalshi_trading_bot.Risk.LossStreak.Streak.{
  Event, closed, reset, feed_all, losing_run, Tracks, feed_all-Tracks,
}

abbrev fresh : ConsecutiveLossGuard
fresh = record { max_consecutive_losses = 2; streak = 0; halted = false; recent_outcomes = [] }

-- Newest first: two losses after a win, and a reset at the start.
abbrev events : List Event
events = closed (negsuc 4) ∷ closed (negsuc 9) ∷ closed (pos 7) ∷ closed (negsuc 0) ∷ reset ∷ []

fresh_made : new_streak_guard 2 ≡ ok fresh
unfolding new_streak_guard
fresh_made = refl

feed_all-Tracks_example : Tracks 2 (losing_run events) (feed_all events fresh)
feed_all-Tracks_example = feed_all-Tracks 2 events fresh_made
