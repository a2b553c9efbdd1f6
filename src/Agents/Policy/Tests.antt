-- ===== src/Agents/Policy/Tests.antt =====
-- The policy on concrete verdicts.
use kalshi_trading_bot.Prelude.{List, [], ◌∷◌, Option, none, some, true, false, ◌≡◌, ◌↔◌}
use kalshi_trading_bot.Agents.Contracts.{
  AgentRole, AgentVerdict, RoleConfig, bull_thesis, bear_thesis, rules_settlement, VerdictDecision,
  support, oppose, info, valid, critical, advisory, RoleCriticality, can_synthesize,
}
use kalshi_trading_bot.Agents.Policy.{calculate_policy}
use kalshi_trading_bot.Agents.Policy.Clearance.{IsCleared, can_synthesize_iff}

abbrev config_for : AgentRole → RoleCriticality → RoleConfig
config_for role criticality = record {
  role = role;
  criticality = criticality;
  enabled = true;
  max_output_tokens = 1500;
  max_cost = 25;
  allow_price_ceiling = false;
  allow_size_ceiling = false;
}

abbrev configs : List RoleConfig
configs =
    config_for bull_thesis advisory
    ∷ config_for bear_thesis advisory
    ∷ config_for rules_settlement critical
    ∷ []

abbrev verdict_for : AgentRole → VerdictDecision → AgentVerdict
verdict_for role decision = record {
  verdict_id = "v1";
  council_run_id = "run";
  role = role;
  evidence_bundle_hash = "hash";
  attempt = 1;
  decision = decision;
  severity = info;
  claims = [];
  counterevidence = [];
  reason_codes = [];
  proposed_action = none;
  price_ceiling = none;
  size_ceiling = none;
  output_tokens = 900;
  cost = 10;
  parse_status = valid;
}

abbrev verdicts : List (Option AgentVerdict)
verdicts =
    some (verdict_for bull_thesis support)
    ∷ some (verdict_for bear_thesis oppose)
    ∷ some (verdict_for rules_settlement support)
    ∷ []

can_synthesize_iff_example :
    (can_synthesize (calculate_policy configs verdicts) ≡ true) ↔ IsCleared configs verdicts
can_synthesize_iff_example = can_synthesize_iff configs verdicts
