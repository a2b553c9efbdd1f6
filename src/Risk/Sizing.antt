-- ===== src/Risk/Sizing.antt =====
-- `size_fixed_risk` and `compute_r` of src/kalshi_bot/risk/fixed_risk.py. Equity, prices and costs are
-- numbers of one smallest unit, percentages are in millionths, and quotients are exact before the
-- final `int`.
pub mod Budget
mod Tests
use Prim.Native.Nat.{min}
use kalshi_trading_bot.Prelude.{
  ℕ, ◌*◌, ◌/◌, Bool, true, false, not, ◌&&◌, Option, none, some, leb, ltb, ◌==◌, if◌then◌else◌,
  Outcome, ok, raised, get_or,
}
use kalshi_trading_bot.Prelude.Int.{ℤ, pos, pos_part, leb_ℤ}
use kalshi_trading_bot.Risk.Leverage.{distance}

pub data SizingError : Type 0 where
  bad_risk_pct bad_max_position_pct bad_entry_price bad_unit_cost zero_r : SizingError

-- `R`, the distance from entry to stop.
unfoldable pub compute_r : ℕ → ℕ → Outcome SizingError ℕ
compute_r entry stop = let r = distance entry stop in if r == 0 then raised zero_r else ok r

-- `not 0.0 < pct <= 1.0`
abbrev pub is_bad_pct : ℕ → Bool
is_bad_pct pct = not (ltb 0 pct && leb pct 1000000)

-- `int(min(risk_dollars / r, max_notional / cost))`
unfoldable pub units : ℕ → ℕ → ℕ → ℕ → ℕ → ℕ
units equity risk_pct max_position_pct r cost =
    min (equity * risk_pct / (1000000 * r)) (equity * max_position_pct / (1000000 * cost))

unfoldable pub size_fixed_risk : ℤ → ℕ → ℕ → ℕ → ℕ → Option ℕ → Outcome SizingError ℕ
unfolding units
size_fixed_risk equity entry stop risk_pct max_position_pct unit_cost =
    let r = distance entry stop in
    let cost = get_or unit_cost entry in
    if leb_ℤ equity (pos 0)
    then ok 0
    else (if is_bad_pct risk_pct
        then raised bad_risk_pct
        else (if is_bad_pct max_position_pct
            then raised bad_max_position_pct
            else (if entry == 0
                then raised bad_entry_price
                else (if r == 0
                    then ok 0
                    else (if cost == 0
                        then raised bad_unit_cost
                        else ok (units (pos_part equity) risk_pct max_position_pct r cost))))))
