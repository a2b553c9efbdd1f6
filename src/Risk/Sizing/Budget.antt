-- ===== src/Risk/Sizing/Budget.antt =====
-- The budgets that `size_fixed_risk` (src/kalshi_bot/risk/fixed_risk.py) keeps, and that it spends.
use Prim.Native.Nat.{min}
use native.Mathlib.Nat.{le-div_iff_mul-le}
use kalshi_trading_bot.Prelude.{
  ℕ, ◌*◌, ◌/◌, ◌≤◌, ◌<◌, ◌≡◌, ◌≢◌, ◌↔◌, ◌⊎◌, inl, inr, Option, arith, ok, get_or,
}
use kalshi_trading_bot.Prelude.Int.{ℤ, pos, pos_part, ◌<ℤ◌}
use kalshi_trading_bot.Risk.Leverage.{distance}
use kalshi_trading_bot.Risk.Sizing.{size_fixed_risk, units}

le_min_iff : (k a b : ℕ) → (k ≤ min a b) ↔ ((k ≤ a) × (k ≤ b))
le_min_iff k a b = (λ h. omega arith, λ h. omega arith)

-- `k` units fit the size exactly when their loss at the stop fits the risk budget and their cost
-- fits the position cap.
le-units_iff :
    (k equity risk_pct max_position_pct r cost : ℕ)
    → 0 < r
    → 0 < cost
    → (k ≤ units equity risk_pct max_position_pct r cost) ↔ (
        (k * (1000000 * r) ≤ equity * risk_pct)
        × (k * (1000000 * cost) ≤ equity * max_position_pct))
unfolding units
le-units_iff k equity risk_pct max_position_pct r cost hr hc =
    let split =
      le_min_iff k (equity * risk_pct / (1000000 * r))
        (equity * max_position_pct / (1000000 * cost)) in
    let risk = le-div_iff_mul-le {k = 1000000 * r} {x = k} {y = equity * risk_pct} (omega arith) in
    let cap_ =
      le-div_iff_mul-le {k = 1000000 * cost} {x = k} {y = equity * max_position_pct}
        (omega arith) in
    (λ h. (risk.0 (split.0 h).0, cap_.0 (split.0 h).1), λ h. split.1 (risk.1 h.0, cap_.1 h.1))

-- With a positive equity, percentages in range, a positive entry price and unit cost, and a stop
-- away from the entry, the size is the greatest number of units whose loss at the stop is within
-- the risk budget and whose cost is within the position cap.
pub size_fixed_risk_greatest :
    (equity : ℤ) (entry stop risk_pct max_position_pct : ℕ) (unit_cost : Option ℕ)
    → pos 0 <ℤ equity
    → (0 < risk_pct) × (risk_pct ≤ 1000000)
    → (0 < max_position_pct) × (max_position_pct ≤ 1000000)
    → 0 < entry
    → entry ≢ stop
    → 0 < get_or unit_cost entry
    → (n : ℕ) × (size_fixed_risk equity entry stop risk_pct max_position_pct unit_cost ≡ ok n)
      × ((k : ℕ)
          → (k ≤ n) ↔ (
              (k * (1000000 * distance entry stop) ≤ pos_part equity * risk_pct)
              × (k * (1000000 * get_or unit_cost entry) ≤ pos_part equity * max_position_pct)))
unfolding size_fixed_risk
size_fixed_risk_greatest equity entry stop risk_pct max_pct unit_cost e (r1, r2) (m1, m2) p apart
      c =
    (
      units (pos_part equity) risk_pct max_pct (distance entry stop) (get_or unit_cost entry),
      ground arith,
      λ k.
          le-units_iff k (pos_part equity) risk_pct max_pct (distance entry stop)
            (get_or unit_cost entry) (ground arith) c,
    )

size_cases :
    (equity : ℤ) (entry stop risk_pct max_pct : ℕ) (unit_cost : Option ℕ) (n : ℕ)
    → size_fixed_risk equity entry stop risk_pct max_pct unit_cost ≡ ok n
    → (n ≡ 0)
      ⊎ ((n
            ≡ units
                (pos_part equity)
                risk_pct
                max_pct
                (distance entry stop)
                (get_or unit_cost entry))
          × (0 < distance entry stop)
          × (0 < get_or unit_cost entry))
unfolding size_fixed_risk
size_cases equity entry stop risk_pct max_pct unit_cost n h = ground arith

-- Whatever the inputs, a size that is returned keeps both budgets: its loss at the stop is at most
-- the risk percentage of the equity, and its cost at most the position cap.
pub size_fixed_risk_within :
    (equity : ℤ) (entry stop risk_pct max_position_pct : ℕ) (unit_cost : Option ℕ) {n : ℕ}
    → size_fixed_risk equity entry stop risk_pct max_position_pct unit_cost ≡ ok n
    → (n * (1000000 * distance entry stop) ≤ pos_part equity * risk_pct)
      × (n * (1000000 * get_or unit_cost entry) ≤ pos_part equity * max_position_pct)
size_fixed_risk_within equity entry stop risk_pct max_pct unit_cost {n} h =
    elim (size_cases equity entry stop risk_pct max_pct unit_cost n h) [
      | inl zero_size ↦ rw zero_size (omega arith, omega arith)
      | inr (sized, r, cost) ↦
          (le-units_iff n (pos_part equity) risk_pct max_pct (distance entry stop)
              (get_or unit_cost entry) r cost).0
            (omega arith)
    ]
