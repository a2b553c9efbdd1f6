-- ===== src/Risk/Leverage/Bounds.antt =====
-- What the checks of src/kalshi_bot/risk/leverage_governor.py bound.
use Prim.Native.Nat.{min}
use kalshi_trading_bot.Prelude.{ℕ, ◌*◌, ◌≤◌, ◌<◌, ◌≡◌, true, leb, arith}
use kalshi_trading_bot.Prelude.Int.{ℤ, pos, pos_part, ◌<ℤ◌}
use kalshi_trading_bot.Risk.Leverage.{
  check_leverage_ceiling, max_notional_for_leverage_cap, check_liquidation_buffer, long, short,
  distance, hard_leverage_ceiling,
}

capped : (limit most equity : ℕ) → min limit most * equity ≤ most * equity
capped limit most equity = grind arith

-- Whatever cap the caller configures, an allowed position is at most three times the equity, and
-- the equity is positive.
pub leverage_below_ceiling :
    (notional equity : ℤ) (limit : ℕ)
    → (check_leverage_ceiling notional equity limit).allowed ≡ true
    → (pos 0 <ℤ equity) × (pos_part notional ≤ 3 * pos_part equity)
unfolding check_leverage_ceiling
leverage_below_ceiling notional equity limit h =
    ground (arith, capped limit hard_leverage_ceiling (pos_part equity))

-- For a positive equity the check allows a notional exactly when it is at most the largest
-- notional that the sizing function gives for the same cap.
pub leverage_agrees_with_sizing :
    (notional equity : ℤ) (limit : ℕ)
    → pos 0 <ℤ equity
    → (check_leverage_ceiling notional equity limit).allowed
      ≡ leb (pos_part notional * 1000000) (max_notional_for_leverage_cap equity limit)
unfolding check_leverage_ceiling max_notional_for_leverage_cap
leverage_agrees_with_sizing notional equity limit h = ground arith

-- An allowed long entry has its liquidation price below the entry and below the stop, and the
-- stop nearer to the entry than the liquidation; so the price passes the stop first.
pub long_stop_first :
    (entry stop liquidation : ℕ)
    → (check_liquidation_buffer entry stop liquidation long).allowed ≡ true
    → (liquidation < stop)
      × (liquidation < entry)
      × (distance entry stop < distance entry liquidation)
unfolding check_liquidation_buffer
long_stop_first entry stop liquidation h = ground arith

-- An allowed short entry has its liquidation price above the entry and above the stop, and the
-- stop nearer to the entry than the liquidation.
pub short_stop_first :
    (entry stop liquidation : ℕ)
    → (check_liquidation_buffer entry stop liquidation short).allowed ≡ true
    → (stop < liquidation)
      × (entry < liquidation)
      × (distance entry stop < distance entry liquidation)
unfolding check_liquidation_buffer
short_stop_first entry stop liquidation h = ground arith

-- Every protective stop that lies between the liquidation price and the entry is allowed.
pub protective_stop_allowed :
    (entry stop liquidation : ℕ)
    → liquidation < stop
    → stop ≤ entry
    → (check_liquidation_buffer entry stop liquidation long).allowed ≡ true
unfolding check_liquidation_buffer
protective_stop_allowed entry stop liquidation h k = ground arith
