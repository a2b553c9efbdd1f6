-- ===== src/Execution/PaperBroker/Tests.antt =====
-- The paper broker on a few concrete calls.
use kalshi_trading_bot.Prelude.{List, [], ◌∷◌, some, ◌≡◌}
use kalshi_trading_bot.Prelude.Int.{pos}
use kalshi_trading_bot.Execution.Broker.{OrderRequest, MarketSnapshot, no_side, taker}
use kalshi_trading_bot.Execution.PaperBroker.{PaperBroker, new_paper_broker}
use kalshi_trading_bot.Execution.PaperBroker.Restart.{
  Call, quotes_market, orders, settles, after_all, restart_resumes,
}

abbrev quote : MarketSnapshot
quote = record {
  market_ticker = "KXBTC";
  ts = 100;
  yes_bid_cents = some 36;
  yes_ask_cents = some 40;
}

abbrev order : OrderRequest
order = record {
  market_ticker = "KXBTC";
  side = no_side;
  quantity = 10;
  limit_price_cents = some 70;
  execution_style = taker;
}

abbrev calls : List Call
calls = quotes_market quote ∷ orders order 101 ∷ settles "KXBTC" "no" 200 ∷ orders order 201 ∷ []

abbrev ended : PaperBroker
ended = after_all calls (new_paper_broker (pos 10000) [])

restart_resumes_example :
    new_paper_broker (pos 10000) ended.rows ≡ (record ended { quotes = []; order_ids = 1 })
restart_resumes_example = restart_resumes (pos 10000) [] calls tt
