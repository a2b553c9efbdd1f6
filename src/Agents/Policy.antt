-- ===== src/Agents/Policy.antt =====
-- `calculate_policy` of src/kalshi_bot/agents/coordinator.py: what the verdicts of the specialists permit.
pub mod Clearance
mod Tests
use Prim.Native.String.{◌++◌ as ◌+++◌}
use kalshi_trading_bot.Prelude.{
  ℕ, Bool, true, false, not, ◌&&◌, ◌||◌, Option, none, some, List, [], ◌∷◌, ◌++◌, String,
  if◌then◌else◌, is_empty, is_empty_text, select, map,
}
use kalshi_trading_bot.Agents.Contracts.{
  AgentRole, researcher, bull_thesis, bear_thesis, skeptic, execution_liquidity, rules_settlement,
  portfolio_risk, master_synthesizer, VerdictDecision, support, oppose, abstain, block, role_name,
  is_role, is_critical, is_abstention, is_block, is_blocking, is_invalid, AgentVerdict,
  CouncilPolicy, RoleConfig, joined,
}
use kalshi_trading_bot.Agents.Validation.{error_if}

-- `_ROLE_ORDER`
abbrev pub role_order : List AgentRole
role_order =
    researcher ∷ bull_thesis ∷ bear_thesis ∷ skeptic ∷ execution_liquidity ∷ rules_settlement
    ∷ portfolio_risk ∷ master_synthesizer ∷ []

-- The roles but the master's, in the order of their names.
abbrev pub sorted_specialists : List AgentRole
sorted_specialists =
    bear_thesis ∷ bull_thesis ∷ execution_liquidity ∷ portfolio_risk ∷ researcher ∷ rules_settlement
    ∷ skeptic ∷ []

abbrev pub is_verdict_of : AgentRole → AgentVerdict → Bool
is_verdict_of role verdict =
    is_role verdict.role role && not (is_role verdict.role master_synthesizer)

abbrev pub later : Option AgentVerdict → AgentRole → Option AgentVerdict → Option AgentVerdict
later (some verdict) role _ = some verdict
later none role none = none
later none role (some verdict) = if is_verdict_of role verdict then some verdict else none

-- `by_role.get(role)`: the last verdict of a specialist.
unfoldable pub verdict_of : AgentRole → List (Option AgentVerdict) → Option AgentVerdict
verdict_of role [] = none
verdict_of role (verdict ∷ verdicts) = later (verdict_of role verdicts) role verdict

-- `role in critical_roles`
unfoldable pub is_critical_role : AgentRole → List RoleConfig → Bool
is_critical_role role [] = false
is_critical_role role (config ∷ configs) =
    (is_role config.role role
      && is_critical config.criticality
      && not (is_role config.role master_synthesizer))
    || is_critical_role role configs

abbrev pub is_incomplete : Option AgentVerdict → Bool
is_incomplete none = true
is_incomplete (some verdict) = is_invalid verdict.parse_status

abbrev pub decision_name : VerdictDecision → String
decision_name support = "support"
decision_name oppose = "oppose"
decision_name abstain = "abstain"
decision_name block = "block"

abbrev pub codes_or_decision : AgentVerdict → String
codes_or_decision verdict =
    let codes = joined verdict.reason_codes in
    if is_empty_text codes then decision_name verdict.decision else codes

abbrev pub vetoes_by : AgentRole → Option AgentVerdict → List String
vetoes_by role none = []
vetoes_by role (some verdict) =
    error_if (is_block verdict.decision || is_blocking verdict.severity)
      (role_name role +++ ":" +++ codes_or_decision verdict)

unfoldable pub vetoes_of :
    List AgentRole → List RoleConfig → List (Option AgentVerdict) → List String
vetoes_of [] configs verdicts = []
vetoes_of (role ∷ roles) configs verdicts =
    let rest = vetoes_of roles configs verdicts in
    if is_critical_role role configs
    then vetoes_by role (verdict_of role verdicts) ++ rest
    else rest

-- A verdict that is there, is valid and takes a side.
abbrev pub takes_side : Option AgentVerdict → Bool
takes_side none = false
takes_side (some verdict) =
    not (is_invalid verdict.parse_status) && not (is_abstention verdict.decision)

abbrev pub abstains : Option AgentVerdict → Bool
abstains none = false
abstains (some verdict) = is_abstention verdict.decision

-- `missing`
unfoldable pub missing_of : List RoleConfig → List (Option AgentVerdict) → List AgentRole
missing_of configs verdicts =
    select (λ role. is_critical_role role configs && is_incomplete (verdict_of role verdicts))
      role_order

unfoldable pub calculate_policy : List RoleConfig → List (Option AgentVerdict) → CouncilPolicy
calculate_policy configs verdicts =
    let missing = missing_of configs verdicts in
    let vetoes = vetoes_of sorted_specialists configs verdicts in
    let quorum =
      takes_side (verdict_of bull_thesis verdicts)
      && takes_side (verdict_of bear_thesis verdicts) in
    record {
      quorum_met = quorum;
      required_roles_complete = is_empty missing;
      vetoes = vetoes;
      abstentions = select (λ role. abstains (verdict_of role verdicts)) role_order;
      missing_roles = missing;
      reason_codes =
          error_if (not (is_empty missing)) "critical_role_incomplete"
          ++ error_if (not (is_empty vetoes)) "critical_veto"
          ++ error_if (not quorum) "directional_quorum_not_met";
    }
