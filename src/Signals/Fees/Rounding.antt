-- ===== src/Signals/Fees/Rounding.antt =====
-- How the fee of src/kalshi_bot/signals/fees.py rounds.
use native.Mathlib.Nat.{mul_comm, mul-le-mul_left}
use kalshi_trading_bot.Prelude.{ℕ, ◌+◌, ◌-◌, ◌*◌, ◌≤◌, ◌<◌, ◌≡◌, ◌↔◌, ap, ◌∙◌, arith}
use kalshi_trading_bot.Signals.Fees.{ceil_div, exact_fee, entry_fee, taker_fee_coefficient}

-- The rounded fee is the least number of cents that covers the exact one.
pub ceil_million : (n k : ℕ) → (ceil_div n 1000000 ≤ k) ↔ (n ≤ k * 1000000)
unfolding ceil_div
ceil_million n k = (λ h. omega arith, λ h. omega arith)

exact_fee-add :
    (price m n coefficient : ℕ)
    → exact_fee price (m + n) coefficient
      ≡ exact_fee price m coefficient + exact_fee price n coefficient
unfolding exact_fee
exact_fee-add price m n coefficient = grind arith

ceil-add : (a b : ℕ) → ceil_div (a + b) 1000000 ≤ ceil_div a 1000000 + ceil_div b 1000000
unfolding ceil_div
ceil-add a b = omega arith

-- One order never pays more than the same contracts in two orders.
pub entry_fee-add :
    (price m n coefficient : ℕ)
    → entry_fee price (m + n) coefficient
      ≤ entry_fee price m coefficient + entry_fee price n coefficient
unfolding entry_fee
entry_fee-add price m n coefficient =
    rw (exact_fee-add price m n coefficient)
      (ceil-add (exact_fee price m coefficient) (exact_fee price n coefficient))

-- A price and its complement carry the same fee.
pub entry_fee-mirror :
    (price quantity coefficient : ℕ)
    → price ≤ 100
    → entry_fee (100 - price) quantity coefficient ≡ entry_fee price quantity coefficient
unfolding entry_fee exact_fee
entry_fee-mirror price quantity coefficient h =
    let twice : 100 - (100 - price) ≡ price = omega arith in
    ap (λ x. ceil_div (coefficient * x * quantity) 1000000)
      (ap (λ y. (100 - price) * y) twice ∙ mul_comm (100 - price) price)

rest-le : (price : ℕ) → 100 - price ≤ 100
rest-le price = omega arith

exact_fee-le :
    (price quantity : ℕ)
    → exact_fee price quantity taker_fee_coefficient ≤ price * quantity * 1000000
unfolding exact_fee
exact_fee-le price quantity =
    let below = mul-le-mul_left price (rest-le price) in
    grind (arith, mul-le-mul_left quantity below)

-- A taker never pays more in fees than what the contracts cost.
pub taker_fee-le-stake :
    (price quantity : ℕ) → entry_fee price quantity taker_fee_coefficient ≤ price * quantity
unfolding entry_fee
taker_fee-le-stake price quantity =
    (ceil_million (exact_fee price quantity taker_fee_coefficient) (price * quantity)).1
      (exact_fee-le price quantity)

-- The fee covers the exact fee, and exceeds it by less than a cent.
pub entry_fee_rounds :
    (price quantity coefficient : ℕ)
    → (exact_fee price quantity coefficient ≤ entry_fee price quantity coefficient * 1000000)
      × (entry_fee price quantity coefficient * 1000000
          < exact_fee price quantity coefficient + 1000000)
unfolding entry_fee ceil_div
entry_fee_rounds price quantity coefficient = (omega arith, omega arith)
