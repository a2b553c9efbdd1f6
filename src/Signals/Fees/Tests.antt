-- ===== src/Signals/Fees/Tests.antt =====
-- The fee at concrete prices.
use kalshi_trading_bot.Prelude.{◌≡◌, refl}
use kalshi_trading_bot.Signals.Fees.{entry_fee, taker_fee_coefficient, exact_fee, ceil_div}

-- One contract at 50 cents costs 1.75 cents, rounded up.
fee_at_even_odds : entry_fee 50 1 taker_fee_coefficient ≡ 2
unfolding entry_fee exact_fee ceil_div
fee_at_even_odds = refl

-- A cheap contract still costs a cent.
fee_of_a_long_shot : entry_fee 1 1 taker_fee_coefficient ≡ 1
unfolding entry_fee exact_fee ceil_div
fee_of_a_long_shot = refl
