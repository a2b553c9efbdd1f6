-- ===== src/Risk/Leverage/Tests.antt =====
-- The leverage checks at concrete values.
use kalshi_trading_bot.Prelude.{◌*◌, ◌≤◌, ◌≡◌, true, refl}
use kalshi_trading_bot.Prelude.Int.{pos, ◌<ℤ◌}
use kalshi_trading_bot.Risk.Leverage.{check_leverage_ceiling, check_liquidation_buffer, long}
use kalshi_trading_bot.Risk.Leverage.Bounds.{leverage_below_ceiling}

-- A cap of 5 is cut to 3.
at_ceiling : (check_leverage_ceiling (pos 3000) (pos 1000) 5000000).allowed ≡ true
unfolding check_leverage_ceiling
at_ceiling = refl

leverage_below_ceiling_example : (pos 0 <ℤ pos 1000) × (3000 ≤ 3 * 1000)
leverage_below_ceiling_example = leverage_below_ceiling (pos 3000) (pos 1000) 5000000 at_ceiling

long_allowed : (check_liquidation_buffer 100 90 60 long).allowed ≡ true
unfolding check_liquidation_buffer
long_allowed = refl
