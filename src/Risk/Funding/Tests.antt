-- ===== src/Risk/Funding/Tests.antt =====
-- The funding of a concrete position.
use kalshi_trading_bot.Prelude.Int.{negsuc}
use kalshi_trading_bot.Risk.Funding.{FundingEstimate}

abbrev estimate : FundingEstimate
estimate = record {
  market_ticker = "KXBTCPERP";
  next_funding_time = 28800;
  funding_rate = negsuc 99;
  mark_price = 65000;
}
