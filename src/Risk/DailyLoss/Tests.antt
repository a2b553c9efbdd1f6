-- ===== src/Risk/DailyLoss/Tests.antt =====
-- The daily guard on one concrete day.
use kalshi_trading_bot.Prelude.{false, not, none, List, [], ◌∷◌, ◌≡◌, refl, ok}
use kalshi_trading_bot.Prelude.Int.{pos, negsuc}
use kalshi_trading_bot.Risk.DailyLoss.{DailyLossGuard, new_daily_guard, daily_allows, utc_date}
use kalshi_trading_bot.Risk.DailyLoss.Day.{
  Trade, AllOnDay, breaches, record_all, daily_allows-record_all,
}

abbrev fresh : DailyLossGuard
fresh = record {
  max_daily_loss = pos 3000;
  current_date = none;
  daily_pnl = pos 0;
  halted_today = false;
  manually_reset = false;
}

-- A loss of 1000, one of 2100, and a win of 5000, all on the day 10.
abbrev trades : List Trade
trades = (negsuc 999, 864000) ∷ (negsuc 2099, 864100) ∷ (pos 5000, 864200) ∷ []

fresh_made : new_daily_guard (pos 3000) ≡ ok fresh
unfolding new_daily_guard
fresh_made = refl

trades_on_day : AllOnDay (utc_date 864300) trades
trades_on_day = (refl, (refl, (refl, tt)))

daily_allows-record_all_example :
    (daily_allows 864300 (record_all trades fresh)).0 ≡ not (breaches (pos 3000) (pos 0) trades)
daily_allows-record_all_example =
    daily_allows-record_all (pos 3000) 864300 trades fresh_made trades_on_day
