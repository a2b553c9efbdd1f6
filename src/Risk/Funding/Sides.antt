-- ===== src/Risk/Funding/Sides.antt =====
-- The two sides of one funding payment (src/kalshi_bot/risk/funding_awareness.py).
use kalshi_trading_bot.Prelude.{ℕ, ◌≡◌, arith}
use kalshi_trading_bot.Prelude.Int.{ℤ, pos, ◌+ℤ◌}
use kalshi_trading_bot.Risk.Funding.{
  FundingEstimate, long, short, pays, receives, flat, PayOrReceive, funding_state_from_estimate,
  scaled, negated, direction_of,
}

-- What the other side does.
abbrev pub mirrored : PayOrReceive → PayOrReceive
mirrored pays = receives
mirrored receives = pays
mirrored flat = flat

negated-cancels : (a : ℤ) → a +ℤ negated a ≡ pos 0
unfolding ◌+ℤ◌
negated-cancels a = ground arith

direction_of-negated : (a : ℤ) → direction_of (negated a) ≡ mirrored (direction_of a)
direction_of-negated a = ground arith

-- Funding is zero-sum: a long and a short of one notional pay amounts that cancel out, and when one
-- of them pays the other receives.
pub funding_mirrors :
    (estimate : FundingEstimate) (notional : ℕ)
    → let on_long = funding_state_from_estimate estimate long notional in
      let on_short = funding_state_from_estimate estimate short notional in
      (on_long.estimated_payment_usd +ℤ on_short.estimated_payment_usd ≡ pos 0)
      × (on_short.pays_or_receives ≡ mirrored on_long.pays_or_receives)
unfolding funding_state_from_estimate
funding_mirrors estimate notional = (
  negated-cancels (scaled notional estimate.funding_rate),
  direction_of-negated (scaled notional estimate.funding_rate),
)
