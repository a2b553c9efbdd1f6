-- ===== src/Risk/Leverage.antt =====
-- src/kalshi_bot/risk/leverage_governor.py. A leverage is in millionths; a notional and an equity are
-- integers in one smallest unit; a price is a number of smallest units.
pub mod Bounds
mod Tests
use Prim.Native.Nat.{min}
use text.Mathlib.Text.{◌==◌ as str_eq}
use kalshi_trading_bot.Prelude.{
  ℕ, ◌+◌, ◌-◌, ◌*◌, Bool, true, false, ◌||◌, Option, none, some, List, [], ◌∷◌, String, leb, ltb,
  if◌then◌else◌, find?,
}
use kalshi_trading_bot.Prelude.Int.{ℤ, pos, pos_part, leb_ℤ}

-- `DEFAULT_LEVERAGE_CAP`
abbrev pub default_leverage_cap : ℕ
default_leverage_cap = 2000000

-- `HARD_LEVERAGE_CEILING`
abbrev pub hard_leverage_ceiling : ℕ
hard_leverage_ceiling = 3000000

-- The ratio `position_notional_usd / equity_usd`.
pub record Ratio : Type 0 where
  pub notional : ℤ
  pub equity : ℕ

pub data LeverageReason : Type 0 where
  non_positive_equity exceeds_cap : LeverageReason

-- `LeverageCheckResult`
pub record LeverageCheckResult : Type 0 where
  pub allowed : Bool
  pub reason : Option LeverageReason
  pub implied_leverage : Option Ratio

-- `notional / equity > cap` for a positive equity, multiplied out; a negative notional is below
-- every cap.
abbrev pub exceeds : Ratio → ℕ → Bool
exceeds ratio cap = ltb (cap * ratio.equity) (pos_part ratio.notional * 1000000)

unfoldable pub check_leverage_ceiling : ℤ → ℤ → ℕ → LeverageCheckResult
check_leverage_ceiling notional equity leverage_cap =
    let effective_cap = min leverage_cap hard_leverage_ceiling in
    let implied : Ratio = record { notional = notional; equity = pos_part equity } in
    if leb_ℤ equity (pos 0)
    then record { allowed = false; reason = some non_positive_equity; implied_leverage = none }
    else (if exceeds implied effective_cap
        then record { allowed = false; reason = some exceeds_cap; implied_leverage = some implied }
        else record { allowed = true; reason = none; implied_leverage = some implied })

-- In millionths of the smallest unit.
unfoldable pub max_notional_for_leverage_cap : ℤ → ℕ → ℕ
max_notional_for_leverage_cap equity leverage_cap =
    if leb_ℤ equity (pos 0) then 0 else pos_part equity * min leverage_cap hard_leverage_ceiling

pub data PositionSide : Type 0 where
  long short : PositionSide

-- `abs(a - b)`
abbrev pub distance : ℕ → ℕ → ℕ
distance a b = if leb a b then b - a else a - b

-- `LiquidationBufferResult`; its reason is one text.
pub record LiquidationBufferResult : Type 0 where
  pub allowed : Bool
  pub distance_to_liquidation : ℕ
  pub stop_distance : ℕ

abbrev pub stop_inside_zone : PositionSide → ℕ → ℕ → Bool
stop_inside_zone long stop liquidation = leb stop liquidation
stop_inside_zone short stop liquidation = leb liquidation stop

unfoldable pub check_liquidation_buffer : ℕ → ℕ → ℕ → PositionSide → LiquidationBufferResult
check_liquidation_buffer entry stop liquidation side = record {
  allowed =
      if stop_inside_zone side stop liquidation
        || leb (distance entry liquidation) (distance entry stop)
      then false
      else true;
  distance_to_liquidation = distance entry liquidation;
  stop_distance = distance entry stop;
}

-- One entry of `positions` in the exchange's risk response.
pub record PositionRisk : Type 0 where
  pub market_ticker : String
  pub estimated_liquidation_price : Option ℕ

unfoldable pub find_position_risk : List PositionRisk → String → Option PositionRisk
find_position_risk positions ticker = find? (λ p. str_eq p.market_ticker ticker) positions
