-- ===== src/Risk/Funding.antt =====
-- `funding_state_from_estimate` of src/kalshi_bot/risk/funding_awareness.py. A rate is in millionths, and
-- the payment in millionths of the notional's unit; the response's prices and times are parsed.
pub mod Sides
mod Tests
use kalshi_trading_bot.Prelude.{ℕ, ◌*◌, Bool, true, false, if◌then◌else◌, String}
use kalshi_trading_bot.Prelude.Int.{ℤ, pos, negsuc, ltb_ℤ, sub_ℕ, pos_part, neg_part}

pub data Side : Type 0 where
  long short : Side

pub data PayOrReceive : Type 0 where
  pays receives flat : PayOrReceive

pub record FundingEstimate : Type 0 where
  pub market_ticker : String
  pub next_funding_time : ℕ
  pub funding_rate : ℤ
  pub mark_price : ℕ

pub record FundingState : Type 0 where
  pub market_ticker : String
  pub next_funding_time : ℕ
  pub funding_rate : ℤ
  pub mark_price : ℕ
  pub side : Side
  pub pays_or_receives : PayOrReceive
  pub estimated_payment_usd : ℤ

-- `n * r`
abbrev pub scaled : ℕ → ℤ → ℤ
scaled n r = sub_ℕ (n * pos_part r) (n * neg_part r)

-- `-a`
abbrev pub negated : ℤ → ℤ
negated a = sub_ℕ (neg_part a) (pos_part a)

abbrev pub signed_payment : Side → ℕ → ℤ → ℤ
signed_payment long notional rate = scaled notional rate
signed_payment short notional rate = negated (scaled notional rate)

abbrev pub direction_of : ℤ → PayOrReceive
direction_of payment =
    if ltb_ℤ (pos 0) payment then pays else (if ltb_ℤ payment (pos 0) then receives else flat)

unfoldable pub funding_state_from_estimate : FundingEstimate → Side → ℕ → FundingState
funding_state_from_estimate estimate side notional =
    let payment = signed_payment side notional estimate.funding_rate in
    record {
      market_ticker = estimate.market_ticker;
      next_funding_time = estimate.next_funding_time;
      funding_rate = estimate.funding_rate;
      mark_price = estimate.mark_price;
      side = side;
      pays_or_receives = direction_of payment;
      estimated_payment_usd = payment;
    }
