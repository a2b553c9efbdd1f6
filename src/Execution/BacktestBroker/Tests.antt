-- ===== src/Execution/BacktestBroker/Tests.antt =====
-- The replay broker on a few concrete calls.
use kalshi_trading_bot.Prelude.{List, [], ◌∷◌, some, ◌≡◌, refl, ok, arith}
use kalshi_trading_bot.Prelude.Int.{pos}
use kalshi_trading_bot.Execution.Broker.{OrderRequest, yes_side, taker}
use kalshi_trading_bot.Execution.BacktestBroker.{BacktestBroker, MarketBar, pessimistic, new_broker}
use kalshi_trading_bot.Execution.BacktestBroker.Accounting.{IsBalanced}
use kalshi_trading_bot.Execution.BacktestBroker.Conservation.{
  Call, feeds, orders, closes, settles, after_all, conserves_money,
}

abbrev bar : MarketBar
bar = record {
  market_ticker = "KXBTC";
  ts = 100;
  yes_ask_high = some 40;
  yes_ask_close = some 39;
  yes_bid_low = some 36;
  yes_bid_close = some 37;
  volume = some 1000;
}

abbrev order : OrderRequest
order = record {
  market_ticker = "KXBTC";
  side = yes_side;
  quantity = 10;
  limit_price_cents = some 45;
  execution_style = taker;
}

abbrev calls : List Call
calls =
    feeds bar ∷ orders order ∷ closes "KXBTC" 55 160 ∷ orders order ∷ settles "KXBTC" "yes" 200 ∷ []

abbrev broker : BacktestBroker
broker = record {
  cash = pos 10000;
  fill_mode = pessimistic;
  liquidity_cap = 100000;
  positions = [];
  current_bars = [];
  order_ids = 1;
  settlements = [];
}

made : new_broker (pos 10000) pessimistic 100000 ≡ ok broker
unfolding new_broker
made = refl

conserves_money_example : IsBalanced (pos 10000) (after_all calls broker)
conserves_money_example = conserves_money (pos 10000) pessimistic 100000 calls (omega arith) made
