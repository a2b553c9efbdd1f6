-- ===== src/Execution/BacktestBroker.antt =====
-- `BacktestBroker` of src/kalshi_bot/execution/backtest_broker.py. Money is in cents.
pub mod Accounting
pub mod Conservation
mod Tests
use Prim.Native.Nat.{min}
use kalshi_trading_bot.Prelude.{
  ℕ, suc, ◌+◌, ◌-◌, ◌*◌, ◌/◌, ◌%◌, Bool, true, false, not, ◌&&◌, ◌||◌, Option, none, some, List, [],
  ◌∷◌, ◌++◌, String, leb, ltb, ◌==◌, if◌then◌else◌, Outcome, ok, raised, is_some,
}
use kalshi_trading_bot.Prelude.Dict.{lookup, put, remove}
use kalshi_trading_bot.Prelude.Int.{ℤ, pos, ◌+ℤ◌, ◌-ℤ◌, ltb_ℤ}
use kalshi_trading_bot.Signals.Fees.{entry_fee, taker_fee_coefficient}
use kalshi_trading_bot.Execution.Broker.{
  Side, yes_side, no_side, OrderRequest, OrderStatus, was_filled, was_rejected, RejectReason,
  no_market_data, position_already_open, maker_unfilled_no_validated_model, no_fillable_quote,
  limit_exceeded, insufficient_liquidity, insufficient_funds, OrderResult, is_maker, is_result,
  complement, is_price, exceeds_limit,
}

pub data FillMode : Type 0 where
  pessimistic midpoint : FillMode

-- The fields of a bar that the broker reads.
pub record MarketBar : Type 0 where
  pub market_ticker : String
  pub ts : ℕ
  pub yes_ask_high : Option ℕ
  pub yes_ask_close : Option ℕ
  pub yes_bid_low : Option ℕ
  pub yes_bid_close : Option ℕ
  pub volume : Option ℕ

pub record OpenPosition : Type 0 where
  pub side : Side
  pub quantity : ℕ
  pub entry_price_cents : ℕ
  pub entry_ts : ℕ
  pub entry_fee : ℕ

pub record Settlement : Type 0 where
  pub market_ticker : String
  pub side : Side
  pub quantity : ℕ
  pub entry_price_cents : ℕ
  pub entry_ts : ℕ
  pub won : Bool
  pub gross_pnl : ℤ
  pub entry_fee : ℕ
  pub exit_fee : ℕ
  pub net_pnl : ℤ
  pub settled_ts : ℕ

-- `liquidity_cap` is in millionths; `order_ids` is the next number of the counter.
pub record BacktestBroker : Type 0 where
  pub cash : ℤ
  pub fill_mode : FillMode
  pub liquidity_cap : ℕ
  pub positions : List (String × OpenPosition)
  pub current_bars : List (String × MarketBar)
  pub order_ids : ℕ
  pub settlements : List Settlement

pub data BrokerError : Type 0 where
  bad_liquidity_cap : BrokerError

unfoldable pub new_broker : ℤ → FillMode → ℕ → Outcome BrokerError BacktestBroker
new_broker starting_cash fill_mode liquidity_cap =
    if not (ltb 0 liquidity_cap && leb liquidity_cap 1000000)
    then raised bad_liquidity_cap
    else ok (record {
      cash = starting_cash;
      fill_mode = fill_mode;
      liquidity_cap = liquidity_cap;
      positions = [];
      current_bars = [];
      order_ids = 1;
      settlements = [];
    })

unfoldable pub set_current_bar : MarketBar → BacktestBroker → BacktestBroker
set_current_bar bar broker = record broker {
  current_bars = put bar.market_ticker bar broker.current_bars;
}

-- The stake and the fee that opening a position took.
abbrev pub paid : OpenPosition → ℕ
paid position = position.entry_price_cents * position.quantity + position.entry_fee

abbrev pub void_at : Option OpenPosition → String → BacktestBroker → BacktestBroker
void_at none ticker broker = broker
void_at (some position) ticker broker = record broker {
  positions = remove ticker broker.positions;
  cash = broker.cash +ℤ pos (paid position);
}

unfoldable pub void_fill : String → BacktestBroker → BacktestBroker
void_fill ticker broker = void_at (lookup ticker broker.positions) ticker broker

-- An exit price is in the convention of the side that is held, from 0 to 100.
abbrev pub closed : OpenPosition → String → ℕ → ℕ → Settlement
closed position ticker exit_price exit_ts =
    let gross =
      pos (exit_price * position.quantity)
      -ℤ pos (position.entry_price_cents * position.quantity) in
    let fee = entry_fee exit_price position.quantity taker_fee_coefficient in
    record {
      market_ticker = ticker;
      side = position.side;
      quantity = position.quantity;
      entry_price_cents = position.entry_price_cents;
      entry_ts = position.entry_ts;
      won = ltb position.entry_price_cents exit_price;
      gross_pnl = gross;
      entry_fee = position.entry_fee;
      exit_fee = fee;
      net_pnl = gross -ℤ pos position.entry_fee -ℤ pos fee;
      settled_ts = exit_ts;
    }

abbrev pub close_at :
    Option OpenPosition → String → ℕ → ℕ → BacktestBroker → Option Settlement × BacktestBroker
close_at none ticker exit_price exit_ts broker = (none, broker)
close_at (some position) ticker exit_price exit_ts broker =
    let settlement = closed position ticker exit_price exit_ts in
    (
      some settlement,
      record broker {
        positions = remove ticker broker.positions;
        cash = broker.cash +ℤ (pos (exit_price * position.quantity) -ℤ pos settlement.exit_fee);
        settlements = broker.settlements ++ settlement ∷ [];
      },
    )

unfoldable pub close_position_early :
    String → ℕ → ℕ → BacktestBroker → Option Settlement × BacktestBroker
close_position_early ticker exit_price exit_ts broker =
    close_at (lookup ticker broker.positions) ticker exit_price exit_ts broker

-- A contract pays 100 cents if its side is the result.
abbrev pub payout : Bool → ℕ → ℕ
payout won quantity = if won then 100 * quantity else 0

abbrev pub settled : OpenPosition → String → String → ℕ → Settlement
settled position ticker result settled_ts =
    let won = is_result position.side result in
    let gross =
      pos (payout won position.quantity) -ℤ pos (position.entry_price_cents * position.quantity) in
    record {
      market_ticker = ticker;
      side = position.side;
      quantity = position.quantity;
      entry_price_cents = position.entry_price_cents;
      entry_ts = position.entry_ts;
      won = won;
      gross_pnl = gross;
      entry_fee = position.entry_fee;
      exit_fee = 0;
      net_pnl = gross -ℤ pos position.entry_fee;
      settled_ts = settled_ts;
    }

abbrev pub settle_at : Option OpenPosition → String → String → ℕ → BacktestBroker → BacktestBroker
settle_at none ticker result settled_ts broker = broker
settle_at (some position) ticker result settled_ts broker = record broker {
  positions = remove ticker broker.positions;
  cash = broker.cash +ℤ pos (payout (is_result position.side result) position.quantity);
  settlements = broker.settlements ++ settled position ticker result settled_ts ∷ [];
}

unfoldable pub settle_market : String → String → ℕ → BacktestBroker → BacktestBroker
settle_market ticker result settled_ts broker =
    settle_at (lookup ticker broker.positions) ticker result settled_ts broker

-- `round((a + b) / 2)`: a half goes to the even neighbour.
unfoldable pub rounded_mean : ℕ → ℕ → ℕ
rounded_mean a b =
    let half = (a + b) / 2 in
    if (a + b) % 2 == 0 then half else (if half % 2 == 0 then half else half + 1)

abbrev pub mean_price : Option ℕ → Option ℕ → Option ℕ
mean_price none _ = none
mean_price (some _) none = none
mean_price (some ask) (some bid) = some (rounded_mean ask bid)

unfoldable pub fill_price : FillMode → MarketBar → Side → Option ℕ
fill_price pessimistic bar yes_side = bar.yes_ask_high
fill_price pessimistic bar no_side = complement bar.yes_bid_low
fill_price midpoint bar yes_side = mean_price bar.yes_ask_close bar.yes_bid_close
fill_price midpoint bar no_side = complement (mean_price bar.yes_ask_close bar.yes_bid_close)

-- `int(volume * cap)`, where the bar carries a volume.
abbrev pub fillable : Option ℕ → ℕ → ℕ → ℕ
fillable none liquidity_cap quantity = quantity
fillable (some volume) liquidity_cap quantity = min quantity (volume * liquidity_cap / 1000000)

abbrev pub lacks_volume : Option ℕ → ℕ → Bool
lacks_volume none liquidity_cap = false
lacks_volume (some volume) liquidity_cap = ltb (volume * liquidity_cap / 1000000) 1

-- What an order opens at a price.
abbrev pub bought : OrderRequest → ℕ → MarketBar → BacktestBroker → OpenPosition
bought order price bar broker =
    let quantity = fillable bar.volume broker.liquidity_cap order.quantity in
    record {
      side = order.side;
      quantity = quantity;
      entry_price_cents = price;
      entry_ts = bar.ts;
      entry_fee = entry_fee price quantity taker_fee_coefficient;
    }

-- The checks of an order at a price.
abbrev pub fill_refusal : OrderRequest → ℕ → MarketBar → BacktestBroker → Option RejectReason
fill_refusal order price bar broker =
    if not (is_price price)
    then some no_fillable_quote
    else (if exceeds_limit order.limit_price_cents price
        then some limit_exceeded
        else (if lacks_volume bar.volume broker.liquidity_cap
            then some insufficient_liquidity
            else (if ltb_ℤ broker.cash (pos (paid (bought order price bar broker)))
                then some insufficient_funds
                else none)))

abbrev pub fill_by :
    Option RejectReason → String → OpenPosition → BacktestBroker → OrderStatus × BacktestBroker
fill_by (some reason) ticker position broker = (was_rejected reason, broker)
fill_by none ticker position broker = (
  was_filled position.quantity position.entry_price_cents position.entry_ts,
  record broker {
    cash = broker.cash -ℤ pos (paid position);
    positions = put ticker position broker.positions;
  },
)

abbrev pub fill_with :
    Option ℕ → OrderRequest → MarketBar → BacktestBroker → OrderStatus × BacktestBroker
fill_with none order bar broker = (was_rejected no_fillable_quote, broker)
fill_with (some price) order bar broker =
    fill_by (fill_refusal order price bar broker) order.market_ticker
      (bought order price bar broker) broker

abbrev pub place_on :
    Option MarketBar → OrderRequest → BacktestBroker → OrderStatus × BacktestBroker
place_on none order broker = (was_rejected no_market_data, broker)
place_on (some bar) order broker =
    if is_some (lookup order.market_ticker broker.positions)
    then (was_rejected position_already_open, broker)
    else (if is_maker order.execution_style
        then (was_rejected maker_unfilled_no_validated_model, broker)
        else fill_with (fill_price broker.fill_mode bar order.side) order bar broker)

-- Every call takes a new id, a rejected one too.
unfoldable pub place_order : OrderRequest → BacktestBroker → OrderResult × BacktestBroker
place_order order broker =
    let (status, next) = place_on (lookup order.market_ticker broker.current_bars) order broker in
    (
      record {
        order_id = broker.order_ids;
        market_ticker = order.market_ticker;
        side = order.side;
        status = status;
      },
      record next { order_ids = suc broker.order_ids },
    )
