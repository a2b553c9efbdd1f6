-- ===== src/Risk/Policy/Budgets.antt =====
-- What `admit_risk` (src/kalshi_bot/risk/paper_policy.py) promises of a request that it admits.
use kalshi_trading_bot.Prelude.{true, false, not, ◌&&◌, ◌≡◌, arith, ◌↔◌}
use kalshi_trading_bot.Prelude.Int.{pos, ◌+ℤ◌, ◌≤ℤ◌, ◌<ℤ◌}
use kalshi_trading_bot.Risk.Policy.{RiskPolicy, RiskRequest, scopes, first_over, admit_risk}

-- Every limit of the policy holds of the request, the loss included in each exposure.
pub record IsAdmissible (request : RiskRequest) (policy : RiskPolicy) : Type 0 where
  pub positive_loss : pos 0 <ℤ request.worst_case_loss
  pub reconciled : policy.require_reconciled && not request.reconciled ≡ false
  pub fresh : request.data_age_seconds ≤ℤ policy.max_data_age_seconds
  pub drawdown : request.drawdown_pct <ℤ policy.max_drawdown_pct
  pub daily : request.daily_loss <ℤ policy.max_daily_loss
  pub streak : request.consecutive_losses <ℤ policy.max_consecutive_losses
  pub global : request.global_exposure +ℤ request.worst_case_loss ≤ℤ policy.max_global_exposure
  pub domain : request.domain_exposure +ℤ request.worst_case_loss ≤ℤ policy.max_domain_exposure
  pub asset : request.asset_exposure +ℤ request.worst_case_loss ≤ℤ policy.max_asset_exposure
  pub group :
      request.group_exposure +ℤ request.worst_case_loss ≤ℤ policy.max_correlation_group_exposure
  pub market : request.market_exposure +ℤ request.worst_case_loss ≤ℤ policy.max_market_exposure

-- An admitted request keeps every limit: after its worst-case loss no exposure is over budget.
pub admit_risk-IsAdmissible :
    (request : RiskRequest) (policy : RiskPolicy)
    → (admit_risk request policy).allowed ≡ true
    → IsAdmissible request policy
unfolding admit_risk scopes first_over
admit_risk-IsAdmissible request policy h = ground arith

-- A request that keeps every limit is admitted.
pub admit_risk-admits :
    (request : RiskRequest) (policy : RiskPolicy)
    → IsAdmissible request policy
    → (admit_risk request policy).allowed ≡ true
unfolding admit_risk scopes first_over
admit_risk-admits request policy h = ground arith

-- A request is admitted exactly when it keeps every limit of the policy: its own, those of its horizon, and
-- after its worst-case loss no exposure is over budget.
pub admit_risk_iff :
    (request : RiskRequest) (policy : RiskPolicy)
    → ((admit_risk request policy).allowed ≡ true) ↔ IsAdmissible request policy
admit_risk_iff request policy =
    (admit_risk-IsAdmissible request policy, admit_risk-admits request policy)
