-- ===== src/Execution/PaperBroker.antt =====
-- `PaperBroker` of src/kalshi_bot/execution/paper_broker.py, with the rows of `SimulatedTrade`
-- (src/kalshi_bot/storage/models.py) that it writes. Money is in cents. The table has its newest row first,
-- and the id of a row is the number of older ones.
pub mod Table
pub mod Settled
pub mod Restart
mod Tests
use kalshi_trading_bot.Prelude.{
  ℕ, suc, ◌+◌, ◌*◌, Bool, true, false, not, ◌&&◌, Option, none, some, List, [], ◌∷◌, map, String,
  length, ltb, ◌==◌, if◌then◌else◌, is_some, get_or,
}
use kalshi_trading_bot.Prelude.Dict.{lookup, put, remove}
use kalshi_trading_bot.Prelude.Int.{ℤ, pos, ◌+ℤ◌, ◌-ℤ◌, ltb_ℤ}
use kalshi_trading_bot.Signals.Fees.{entry_fee, taker_fee_coefficient}
use kalshi_trading_bot.Execution.Broker.{
  Side, yes_side, no_side, OrderRequest, OrderStatus, was_filled, was_rejected, RejectReason,
  no_market_data, position_already_open, maker_unfilled_no_validated_model, limit_price_required,
  no_fillable_quote, limit_exceeded, insufficient_funds, OrderResult, MarketSnapshot, is_maker,
  is_result, complement, is_price,
}

pub data TradeMode : Type 0 where
  backtest_trade paper_trade : TradeMode

pub data TradeStatus : Type 0 where
  still_open settled_won settled_lost closed_early : TradeStatus

pub record SimulatedTrade : Type 0 where
  pub mode : TradeMode
  pub market_ticker : String
  pub side : Side
  pub quantity : ℕ
  pub entry_price_cents : ℕ
  pub entry_ts : ℕ
  pub exit_price_cents : Option ℕ
  pub exit_ts : Option ℕ
  pub status : TradeStatus
  pub gross_pnl : Option ℤ
  pub entry_fee_paid : Option ℕ
  pub exit_fee : Option ℕ
  pub net_pnl : Option ℤ

abbrev pub is_paper : TradeMode → Bool
is_paper backtest_trade = false
is_paper paper_trade = true

abbrev pub is_open : TradeStatus → Bool
is_open still_open = true
is_open settled_won = false
is_open settled_lost = false
is_open closed_early = false

-- `positions` holds row ids; `order_ids` is the next number of the counter; `rows` is the session's table.
pub record PaperBroker : Type 0 where
  pub quotes : List (String × MarketSnapshot)
  pub order_ids : ℕ
  pub positions : List (String × ℕ)
  pub cash : ℤ
  pub rows : List SimulatedTrade

-- The stake and the entry fee of a row.
abbrev pub row_cost : SimulatedTrade → ℕ
row_cost row = row.entry_price_cents * row.quantity + get_or row.entry_fee_paid 0

-- `_restore_open_positions`: what one row does to the positions and to the cash.
abbrev pub restore_position : SimulatedTrade → ℕ → List (String × ℕ) → List (String × ℕ)
restore_position row id positions =
    if is_paper row.mode && is_open row.status
    then put row.market_ticker id positions
    else positions

abbrev pub restore_cash : SimulatedTrade → ℤ → ℤ
restore_cash row cash =
    if is_paper row.mode
    then (if is_open row.status
        then cash -ℤ pos (row_cost row)
        else cash +ℤ get_or row.net_pnl (pos 0))
    else cash

unfoldable pub restored_positions : List SimulatedTrade → List (String × ℕ)
restored_positions [] = []
restored_positions (row ∷ older) = restore_position row (length older) (restored_positions older)

unfoldable pub restored_cash : ℤ → List SimulatedTrade → ℤ
restored_cash starting_cash [] = starting_cash
restored_cash starting_cash (row ∷ older) = restore_cash row (restored_cash starting_cash older)

-- A new broker over the rows of a session.
unfoldable pub new_paper_broker : ℤ → List SimulatedTrade → PaperBroker
new_paper_broker starting_cash rows = record {
  quotes = [];
  order_ids = 1;
  positions = restored_positions rows;
  cash = restored_cash starting_cash rows;
  rows = rows;
}

unfoldable pub set_current_quote : MarketSnapshot → PaperBroker → PaperBroker
set_current_quote snapshot broker = record broker {
  quotes = put snapshot.market_ticker snapshot broker.quotes;
}

-- The row with an id, and the table in which it is written again.
unfoldable pub row_at : ℕ → List SimulatedTrade → Option SimulatedTrade
row_at id [] = none
row_at id (row ∷ older) = if length older == id then some row else row_at id older

unfoldable pub write_row : ℕ → SimulatedTrade → List SimulatedTrade → List SimulatedTrade
write_row id changed [] = []
write_row id changed (row ∷ older) =
    let rest = write_row id changed older in
    if length older == id then changed ∷ older else row ∷ rest

abbrev pub won_payout : Bool → ℕ → ℕ
won_payout won quantity = if won then 100 * quantity else 0

-- A row at its settlement: a contract that won pays 100 cents, and there is no further fee.
unfoldable pub settled_row : SimulatedTrade → String → ℕ → SimulatedTrade
settled_row row result settled_ts =
    let won = is_result row.side result in
    let gross = pos (won_payout won row.quantity) -ℤ pos (row.entry_price_cents * row.quantity) in
    record row {
      exit_ts = some settled_ts;
      exit_price_cents = some (if won then 100 else 0);
      status = if won then settled_won else settled_lost;
      gross_pnl = some gross;
      exit_fee = some 0;
      net_pnl = some (gross -ℤ pos (get_or row.entry_fee_paid 0));
    }

-- Positions are rows of the table, so the two `none` cases never meet an open position.
abbrev pub settle_row :
    Option SimulatedTrade → ℕ → String → String → ℕ → PaperBroker → Option ℤ × PaperBroker
settle_row none id ticker result settled_ts broker = (none, broker)
settle_row (some row) id ticker result settled_ts broker =
    let settled = settled_row row result settled_ts in
    (
      settled.net_pnl,
      record broker {
        positions = remove ticker broker.positions;
        cash = broker.cash +ℤ pos (won_payout (is_result row.side result) row.quantity);
        rows = write_row id settled broker.rows;
      },
    )

abbrev pub settle_id : Option ℕ → String → String → ℕ → PaperBroker → Option ℤ × PaperBroker
settle_id none ticker result settled_ts broker = (none, broker)
settle_id (some id) ticker result settled_ts broker =
    settle_row (row_at id broker.rows) id ticker result settled_ts broker

unfoldable pub settle_market : String → String → ℕ → PaperBroker → Option ℤ × PaperBroker
settle_market ticker result settled_ts broker =
    settle_id (lookup ticker broker.positions) ticker result settled_ts broker

abbrev pub quoted_price : Side → MarketSnapshot → Option ℕ
quoted_price yes_side snapshot = snapshot.yes_ask_cents
quoted_price no_side snapshot = complement snapshot.yes_bid_cents

-- `snapshot.ts or int(time.time())`
abbrev pub filled_at : ℕ → ℕ → ℕ
filled_at ts now = if ts == 0 then now else ts

abbrev pub opened_row : OrderRequest → ℕ → ℕ → SimulatedTrade
opened_row order price at = record {
  mode = paper_trade;
  market_ticker = order.market_ticker;
  side = order.side;
  quantity = order.quantity;
  entry_price_cents = price;
  entry_ts = at;
  exit_price_cents = none;
  exit_ts = none;
  status = still_open;
  gross_pnl = none;
  entry_fee_paid = some (entry_fee price order.quantity taker_fee_coefficient);
  exit_fee = none;
  net_pnl = none;
}

abbrev pub paper_refusal : ℕ → ℕ → SimulatedTrade → PaperBroker → Option RejectReason
paper_refusal limit price row broker =
    if not (is_price price)
    then some no_fillable_quote
    else (if ltb limit price
        then some limit_exceeded
        else (if ltb_ℤ broker.cash (pos (row_cost row)) then some insufficient_funds else none))

abbrev pub open_by : Option RejectReason → SimulatedTrade → PaperBroker → OrderStatus × PaperBroker
open_by (some reason) row broker = (was_rejected reason, broker)
open_by none row broker = (
  was_filled row.quantity row.entry_price_cents row.entry_ts,
  record broker {
    cash = broker.cash -ℤ pos (row_cost row);
    positions = put row.market_ticker (length broker.rows) broker.positions;
    rows = row ∷ broker.rows;
  },
)

abbrev pub open_at :
    Option ℕ → Option ℕ → OrderRequest → ℕ → PaperBroker → OrderStatus × PaperBroker
open_at none price order at broker = (was_rejected limit_price_required, broker)
open_at (some limit) none order at broker = (was_rejected no_fillable_quote, broker)
open_at (some limit) (some price) order at broker =
    let row = opened_row order price at in open_by (paper_refusal limit price row broker) row broker

abbrev pub place_quoted :
    Option MarketSnapshot → OrderRequest → ℕ → PaperBroker → OrderStatus × PaperBroker
place_quoted none order now broker = (was_rejected no_market_data, broker)
place_quoted (some snapshot) order now broker =
    if is_some (lookup order.market_ticker broker.positions)
    then (was_rejected position_already_open, broker)
    else (if is_maker order.execution_style
        then (was_rejected maker_unfilled_no_validated_model, broker)
        else open_at order.limit_price_cents (quoted_price order.side snapshot) order
            (filled_at snapshot.ts now) broker)

-- `now` is what the clock says during the call.
unfoldable pub place_order : OrderRequest → ℕ → PaperBroker → OrderResult × PaperBroker
place_order order now broker =
    let (status, next) = place_quoted (lookup order.market_ticker broker.quotes) order now broker in
    (
      record {
        order_id = broker.order_ids;
        market_ticker = order.market_ticker;
        side = order.side;
        status = status;
      },
      record next { order_ids = suc broker.order_ids },
    )

abbrev pub snapshot_or_empty : Option MarketSnapshot → String → MarketSnapshot
snapshot_or_empty (some snapshot) instrument_id = snapshot
snapshot_or_empty none instrument_id = record {
  market_ticker = instrument_id;
  ts = 0;
  yes_bid_cents = none;
  yes_ask_cents = none;
}

unfoldable pub get_market_snapshot : String → PaperBroker → MarketSnapshot
get_market_snapshot instrument_id broker =
    snapshot_or_empty (lookup instrument_id broker.quotes) instrument_id

unfoldable pub open_position_tickers : PaperBroker → List String
open_position_tickers broker = map (λ (entry : String × ℕ). entry.0) broker.positions
