-- ===== src/Risk/Sizing/Tests.antt =====
-- The sizing function at concrete values.
use kalshi_trading_bot.Prelude.{ℕ, ◌*◌, ◌≤◌, ◌≡◌, ◌↔◌, none, ok, arith}
use kalshi_trading_bot.Prelude.Int.{pos}
use kalshi_trading_bot.Risk.Leverage.{distance}
use kalshi_trading_bot.Risk.Sizing.{size_fixed_risk}
use kalshi_trading_bot.Risk.Sizing.Budget.{size_fixed_risk_greatest}

size_fixed_risk_greatest_example :
    (n : ℕ) × (size_fixed_risk (pos 100000) 600 580 10000 250000 none ≡ ok n)
    × ((k : ℕ)
        → (k ≤ n) ↔ (
            (k * (1000000 * distance 600 580) ≤ 100000 * 10000)
            × (k * (1000000 * 600) ≤ 100000 * 250000)))
size_fixed_risk_greatest_example =
    size_fixed_risk_greatest (pos 100000) 600 580 10000 250000 none (omega arith)
      (omega arith, omega arith) (omega arith, omega arith) (omega arith) (λ e. omega arith)
      (omega arith)
