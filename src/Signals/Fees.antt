-- ===== src/Signals/Fees.antt =====
-- The exchange's fee schedule (src/kalshi_bot/signals/fees.py). A fee is in cents, a price in cents from 0 to
-- 100, a coefficient in ten-thousandths, and a quantity is a whole number of contracts.
pub mod Rounding
mod Tests
use kalshi_trading_bot.Prelude.{ℕ, ◌+◌, ◌-◌, ◌*◌, ◌/◌, Bool, leb}

abbrev pub taker_fee_coefficient : ℕ
taker_fee_coefficient = 700

abbrev pub maker_fee_coefficient : ℕ
maker_fee_coefficient = 175

-- `math.ceil(n / d)`, for a `d` above zero.
unfoldable pub ceil_div : ℕ → ℕ → ℕ
ceil_div n d = (n + (d - 1)) / d

-- The fee before it is rounded, in millionths of a cent.
unfoldable pub exact_fee : ℕ → ℕ → ℕ → ℕ
exact_fee price_cents quantity coefficient =
    coefficient * (price_cents * (100 - price_cents)) * quantity

unfoldable pub entry_fee : ℕ → ℕ → ℕ → ℕ
entry_fee price_cents quantity coefficient =
    ceil_div (exact_fee price_cents quantity coefficient) 1000000

-- `ResolutionSpec.resolves_yes`
unfoldable pub resolves_yes : ℕ → ℕ → Bool
resolves_yes before_close before_open = leb before_open before_close
