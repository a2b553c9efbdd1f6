-- ===== src/Risk/Policy/Tests.antt =====
-- The paper policy on a concrete request.
use kalshi_trading_bot.Prelude.{◌↔◌, true, ◌≡◌, refl, arith}
use kalshi_trading_bot.Prelude.Int.{pos, ◌+ℤ◌}
use kalshi_trading_bot.Risk.Policy.{RiskRequest, default_policy, admit_risk, first_over, scopes}
use kalshi_trading_bot.Risk.Policy.Budgets.{admit_risk_iff, IsAdmissible}

-- A loss that just fits the market's budget.
abbrev request : RiskRequest
request = record {
  domain = "prediction";
  asset_id = "BTC";
  correlation_group = "crypto";
  market_id = "KXBTC-1";
  worst_case_loss = pos 500;
  data_age_seconds = pos 120;
  reconciled = true;
  global_exposure = pos 9000;
  domain_exposure = pos 5500;
  asset_exposure = pos 3000;
  group_exposure = pos 7000;
  market_exposure = pos 2000;
  drawdown_pct = pos 50000;
  daily_loss = pos 2999;
  consecutive_losses = pos 2;
}

request_admitted : (admit_risk request default_policy).allowed ≡ true
unfolding admit_risk first_over scopes ◌+ℤ◌
request_admitted = refl

request-IsAdmissible : IsAdmissible request default_policy
unfolding ◌+ℤ◌
request-IsAdmissible = ground arith

admit_risk_iff_example :
    ((admit_risk request default_policy).allowed ≡ true) ↔ IsAdmissible request default_policy
admit_risk_iff_example = admit_risk_iff request default_policy
