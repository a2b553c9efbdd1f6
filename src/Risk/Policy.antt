-- ===== src/Risk/Policy.antt =====
-- `admit_risk` of src/kalshi_bot/risk/paper_policy.py. Amounts are integers in a fixed smallest unit,
-- a percentage is in millionths.
pub mod Budgets
mod Tests
use kalshi_trading_bot.Prelude.{
  Bool, true, false, not, ◌&&◌, Option, none, some, List, [], ◌∷◌, String, if◌then◌else◌,
}
use kalshi_trading_bot.Prelude.Int.{ℤ, pos, ◌+ℤ◌, ltb_ℤ, leb_ℤ}

-- `RiskPolicy`
pub record RiskPolicy : Type 0 where
  pub version : String
  pub max_global_exposure : ℤ
  pub max_domain_exposure : ℤ
  pub max_asset_exposure : ℤ
  pub max_correlation_group_exposure : ℤ
  pub max_market_exposure : ℤ
  pub max_drawdown_pct : ℤ
  pub max_daily_loss : ℤ
  pub max_consecutive_losses : ℤ
  pub max_data_age_seconds : ℤ
  pub require_reconciled : Bool

-- `DEFAULT_RISK_POLICY`, in cents.
abbrev pub default_policy : RiskPolicy
default_policy = record {
  version = "2026-09-paper-v1";
  max_global_exposure = pos 10000;
  max_domain_exposure = pos 6000;
  max_asset_exposure = pos 4000;
  max_correlation_group_exposure = pos 8000;
  max_market_exposure = pos 2500;
  max_drawdown_pct = pos 100000;
  max_daily_loss = pos 3000;
  max_consecutive_losses = pos 3;
  max_data_age_seconds = pos 120;
  require_reconciled = true;
}

-- `RiskRequest`
pub record RiskRequest : Type 0 where
  pub domain : String
  pub asset_id : String
  pub correlation_group : String
  pub market_id : String
  pub worst_case_loss : ℤ
  pub data_age_seconds : ℤ
  pub reconciled : Bool
  pub global_exposure : ℤ
  pub domain_exposure : ℤ
  pub asset_exposure : ℤ
  pub group_exposure : ℤ
  pub market_exposure : ℤ
  pub drawdown_pct : ℤ
  pub daily_loss : ℤ
  pub consecutive_losses : ℤ

-- The reason strings, each under its own name.
pub data RiskReason : Type 0 where
  invalid_worst_case_loss reconciliation_required stale_required_data : RiskReason
  drawdown_limit daily_loss_limit consecutive_loss_limit : RiskReason
  global_budget domain_budget asset_budget : RiskReason
  correlation_group_budget market_budget : RiskReason

-- `RiskVerdict`
pub record RiskVerdict : Type 0 where
  pub allowed : Bool
  pub reason : Option RiskReason
  pub policy_version : String

abbrev pub refuse : RiskReason → RiskPolicy → RiskVerdict
refuse why policy = record { allowed = false; reason = some why; policy_version = policy.version }

-- One scope of the loop: its reason, the exposure in use and the limit.
abbrev pub Scope : Type 0
Scope = RiskReason × ℤ × ℤ

-- `scopes`
unfoldable pub scopes : RiskRequest → RiskPolicy → List Scope
scopes request policy =
    (global_budget, request.global_exposure, policy.max_global_exposure)
    ∷ (domain_budget, request.domain_exposure, policy.max_domain_exposure)
    ∷ (asset_budget, request.asset_exposure, policy.max_asset_exposure)
    ∷ (correlation_group_budget, request.group_exposure, policy.max_correlation_group_exposure)
    ∷ (market_budget, request.market_exposure, policy.max_market_exposure)
    ∷ []

-- The loop over the scopes: the first one that the loss would take over its limit.
unfoldable pub first_over : ℤ → List Scope → Option RiskReason
first_over loss [] = none
first_over loss ((name, used, limit) ∷ rest) =
    let later = first_over loss rest in if ltb_ℤ limit (used +ℤ loss) then some name else later

abbrev verdict_of : RiskPolicy → Option RiskReason → RiskVerdict
verdict_of policy none = record { allowed = true; reason = none; policy_version = policy.version }
verdict_of policy (some why) = refuse why policy

unfoldable pub admit_risk : RiskRequest → RiskPolicy → RiskVerdict
admit_risk request policy =
    if leb_ℤ request.worst_case_loss (pos 0)
    then refuse invalid_worst_case_loss policy
    else (if policy.require_reconciled && not request.reconciled
        then refuse reconciliation_required policy
        else (if ltb_ℤ policy.max_data_age_seconds request.data_age_seconds
            then refuse stale_required_data policy
            else (if leb_ℤ policy.max_drawdown_pct request.drawdown_pct
                then refuse drawdown_limit policy
                else (if leb_ℤ policy.max_daily_loss request.daily_loss
                    then refuse daily_loss_limit policy
                    else (if leb_ℤ policy.max_consecutive_losses request.consecutive_losses
                        then refuse consecutive_loss_limit policy
                        else verdict_of policy
                            (first_over request.worst_case_loss (scopes request policy)))))))
