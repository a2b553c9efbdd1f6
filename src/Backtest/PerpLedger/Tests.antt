-- ===== src/Backtest/PerpLedger/Tests.antt =====
-- The perpetual gate on two concrete trades.
use kalshi_trading_bot.Prelude.{List, [], ◌∷◌, some, true, ◌≡◌, ◌↔◌, refl}
use kalshi_trading_bot.Prelude.Int.{pos, negsuc, ◌+ℤ◌, ◌-ℤ◌}
use kalshi_trading_bot.Backtest.PerpLedger.{
  PerpTrade, PerpPromotionPolicy, compute_perp_metrics, evaluate_perp_promotion, perp_reasons,
  perp_reason_if, gross_pnl, funding_pnl, fees, net_pnl, times, greatest_leverage, least_distance,
  liquidations,
}
use kalshi_trading_bot.Backtest.PerpLedger.Gate.{IsPromotable, perp_promotion_iff}

abbrev policy : PerpPromotionPolicy
policy = record {
  min_trades = 2;
  min_net_expectancy = pos 1;
  min_distance = pos 150000;
  max_leverage = 2000000;
  forbid_any_liquidation = true;
}

-- A long that gains 10 on each of 3 units, and received 4 of funding.
abbrev long_trade : PerpTrade
long_trade = record {
  symbol = "BTC";
  entry_ts = 10;
  exit_ts = 20;
  size = pos 3;
  entry_mark = 100;
  exit_mark = 110;
  entry_fee = 1;
  exit_fee = 2;
  funding_events =
      record { ts = 15; funding_rate = negsuc 0; position_notional = 300; payment = pos 4 } ∷ [];
  max_leverage_used = some 1500000;
  min_distance_to_liquidation = some (pos 400000);
}

abbrev short_trade : PerpTrade
short_trade = record long_trade { size = negsuc 0; exit_mark = 95 }

abbrev trades : List PerpTrade
trades = long_trade ∷ short_trade ∷ []

trades_pass : (evaluate_perp_promotion (compute_perp_metrics trades) policy).passed ≡ true
unfolding evaluate_perp_promotion compute_perp_metrics perp_reasons perp_reason_if gross_pnl
    funding_pnl fees net_pnl times greatest_leverage least_distance liquidations ◌+ℤ◌ ◌-ℤ◌
trades_pass = refl

perp_promotion_iff_example :
    ((evaluate_perp_promotion (compute_perp_metrics trades) policy).passed ≡ true)
    ↔ IsPromotable policy trades
perp_promotion_iff_example = perp_promotion_iff policy trades
