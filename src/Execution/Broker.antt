-- ===== src/Execution/Broker.antt =====
-- What the brokers share (src/kalshi_bot/execution/broker_protocol.py). A price is in cents, a quantity is a
-- whole number of contracts, a time is in whole seconds.
use text.Mathlib.Text.{◌==◌ as str_eq}
use kalshi_trading_bot.Prelude.{
  ℕ, Bool, true, false, Option, none, some, String, leb, ltb, ◌-◌, ◌&&◌,
}

pub data Side : Type 0 where
  yes_side no_side : Side

pub data ExecutionStyle : Type 0 where
  taker maker : ExecutionStyle

pub record OrderRequest : Type 0 where
  pub market_ticker : String
  pub side : Side
  pub quantity : ℕ
  pub limit_price_cents : Option ℕ
  pub execution_style : ExecutionStyle

pub data RejectReason : Type 0 where
  no_market_data position_already_open maker_unfilled_no_validated_model : RejectReason
  limit_price_required no_fillable_quote limit_exceeded : RejectReason
  insufficient_liquidity insufficient_funds : RejectReason

-- `OrderResult`: its id is the number behind the broker's prefix; the ticker and the side are the
-- request's.
pub data OrderStatus : Type 0 where
  was_filled : (quantity fill_price_cents filled_at_ts : ℕ) → OrderStatus
  was_rejected : RejectReason → OrderStatus

pub record OrderResult : Type 0 where
  pub order_id : ℕ
  pub market_ticker : String
  pub side : Side
  pub status : OrderStatus

pub record MarketSnapshot : Type 0 where
  pub market_ticker : String
  pub ts : ℕ
  pub yes_bid_cents : Option ℕ
  pub yes_ask_cents : Option ℕ

abbrev pub is_maker : ExecutionStyle → Bool
is_maker taker = false
is_maker maker = true

-- The text of a side equals the official result.
abbrev pub is_result : Side → String → Bool
is_result yes_side result = str_eq "yes" result
is_result no_side result = str_eq "no" result

-- `100 - bid`, where there is a bid; above 100 the source's value is negative, and rejected like 0.
abbrev pub complement : Option ℕ → Option ℕ
complement none = none
complement (some bid) = some (100 - bid)

-- `1 <= price <= 99`
abbrev pub is_price : ℕ → Bool
is_price price = leb 1 price && leb price 99

-- `limit is not None and price > limit`
abbrev pub exceeds_limit : Option ℕ → ℕ → Bool
exceeds_limit none price = false
exceeds_limit (some limit) price = ltb limit price
