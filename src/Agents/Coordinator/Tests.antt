-- ===== src/Agents/Coordinator/Tests.antt =====
-- A council run with concrete clients.
use text.Mathlib.Text.{◌==◌ as str_eq}
use kalshi_trading_bot.Prelude.{
  [], ◌∷◌, Option, none, some, Bool, true, false, String, ◌≡◌, ◌⊎◌, refl, if◌then◌else◌, ok,
}
use kalshi_trading_bot.Prelude.Text.{contains}
use kalshi_trading_bot.Agents.Boundary.{take}
use kalshi_trading_bot.Agents.Contracts.{
  AgentRole, AgentVerdict, RoleConfig, CouncilBudget, CouncilDecision, CouncilPolicy, bull_thesis,
  bear_thesis, rules_settlement, master_synthesizer, VerdictDecision, support, oppose, info, valid,
  critical, advisory, RoleCriticality, role_name, is_role, can_synthesize, is_sized_right,
  distinct_from,
}
use kalshi_trading_bot.Agents.Validation.{
  error_if, difference, validate_verdict_artifact, validate_master_decision,
}
use kalshi_trading_bot.Agents.Policy.{
  calculate_policy, verdict_of, is_critical_role, vetoes_of, missing_of,
}
use kalshi_trading_bot.Agents.Coordinator.Budget.{
  no_usage, IsReserved, reserve_roles, reserve_roles-IsReserved, can_reserve, reserve_from,
}
use kalshi_trading_bot.Agents.Coordinator.Calls.{
  Evidence, AgentRequest, AgentCall, RoleAttempt, request_of, projection, record_usage,
  before_colon,
}
use kalshi_trading_bot.Agents.Coordinator.Reading.{parse_or_repair, parse_verdict}
use kalshi_trading_bot.Agents.Coordinator.Grounded.{IsGrounded, IsClosed, parse_or_repair-IsSettled}
use kalshi_trading_bot.Agents.Coordinator.Decision.{
  CouncilCandidate, decision_errors, decision_from_master,
}
use kalshi_trading_bot.Agents.Coordinator.Rounds.{CouncilProfile, invoke_client, first_round}
use kalshi_trading_bot.Agents.Coordinator.Run.{CouncilRunResult, run, conclude, execute_master}
use kalshi_trading_bot.Agents.Coordinator.Sound.{IsSound, run_take-IsSound}

abbrev config_for : AgentRole → RoleCriticality → RoleConfig
config_for role criticality = record {
  role = role;
  criticality = criticality;
  enabled = true;
  max_output_tokens = 1500;
  max_cost = 25;
  allow_price_ceiling = false;
  allow_size_ceiling = false;
}

abbrev budget : CouncilBudget
budget = record {
  total_output_tokens = 16000;
  total_cost = 300;
  max_reconsideration_rounds = 0;
  max_format_retries = 1;
}

abbrev profile : CouncilProfile
profile = record {
  domain = "prediction";
  active = true;
  roles =
      config_for bull_thesis advisory
      ∷ config_for bear_thesis advisory
      ∷ config_for rules_settlement critical
      ∷ config_for master_synthesizer critical
      ∷ [];
  budget = budget;
}

abbrev verdict_for : AgentRole → VerdictDecision → AgentVerdict
verdict_for role decision = record {
  verdict_id = role_name role;
  council_run_id = "run";
  role = role;
  evidence_bundle_hash = "hash";
  attempt = 1;
  decision = decision;
  severity = info;
  claims = [];
  counterevidence = [];
  reason_codes = [];
  proposed_action = none;
  price_ceiling = none;
  size_ceiling = none;
  output_tokens = 900;
  cost = 10;
  parse_status = valid;
}

-- The answers are the names of the roles, and are read as their verdicts.
abbrev invoke : AgentRequest → AgentCall
invoke request = record {
  status = "completed";
  raw_output = some (role_name request.role);
  error = none;
}

abbrev read_verdict : String → Option AgentVerdict
read_verdict raw =
    if str_eq raw "bull_thesis"
    then some (verdict_for bull_thesis support)
    else (if str_eq raw "bear_thesis"
        then some (verdict_for bear_thesis oppose)
        else some (verdict_for rules_settlement support))

abbrev open_policy : CouncilPolicy
open_policy = record {
  quorum_met = true;
  required_roles_complete = true;
  vetoes = [];
  abstentions = [];
  missing_roles = [];
  reason_codes = [];
}

abbrev decision : CouncilDecision
decision = record {
  decision_id = "d";
  council_run_id = "run";
  outcome = take;
  selected_action = some "BUY_YES";
  max_entry_price = some 55;
  max_size = some 5;
  summary = "take";
  supporting_verdict_ids = "bull_thesis" ∷ [];
  dissenting_verdict_ids = "bear_thesis" ∷ [];
  policy = open_policy;
}

abbrev read_decision : String → Option CouncilDecision
read_decision raw = some decision

abbrev has_client : AgentRole → Bool
has_client role = true

abbrev candidate : CouncilCandidate
candidate = record {
  candidate_id = "c";
  domain = "prediction";
  proposed_action = "BUY_YES";
  proposed_price = some 60;
  proposed_size = some 10;
}

abbrev evidence : Evidence
evidence = record {
  candidate_id = "c";
  domain = "prediction";
  bundle_hash = "hash";
  evidence_ids = [];
}

abbrev attempt_for : AgentRole → Option AgentVerdict → RoleAttempt
attempt_for role verdict = record {
  role = role;
  attempt = 1;
  status = "completed";
  verdict = verdict;
  raw_output = some (role_name role);
  errors = [];
  error = none;
}

-- Each specialist used 900 tokens; of the master's answer the text is counted.
abbrev result : CouncilRunResult
result = record {
  attempts =
      attempt_for bear_thesis (some (verdict_for bear_thesis oppose))
      ∷ attempt_for bull_thesis (some (verdict_for bull_thesis support))
      ∷ attempt_for rules_settlement (some (verdict_for rules_settlement support))
      ∷ attempt_for master_synthesizer none
      ∷ [];
  policy = open_policy;
  decision = decision;
  reason_codes = [];
  usage = record { output_tokens = 2704; cost = 30 };
}

takes :
    run read_verdict read_decision has_client invoke "run" candidate evidence
      (some profile)
      false
      []
    ≡ ok result
unfolding run conclude execute_master invoke_client first_round parse_or_repair parse_verdict
    record_usage request_of before_colon decision_from_master decision_errors reserve_from
    can_reserve is_role can_synthesize is_sized_right distinct_from error_if difference
    validate_verdict_artifact validate_master_decision calculate_policy verdict_of is_critical_role
    vetoes_of missing_of contains
takes = refl

run_take-IsSound_example : IsSound candidate "run" profile.roles result
run_take-IsSound_example =
    run_take-IsSound read_verdict read_decision has_client invoke "run" candidate evidence profile
      false [] takes refl

reserve_roles-IsReserved_example :
    IsReserved no_usage budget profile.roles (reserve_roles budget profile.roles)
reserve_roles-IsReserved_example = reserve_roles-IsReserved budget profile.roles

abbrev rules : RoleConfig
rules = config_for rules_settlement critical

abbrev request : AgentRequest
request = request_of rules "run" 1 (projection rules_settlement)

abbrev timed_out : AgentCall
timed_out = record { status = "timeout"; raw_output = none; error = some "role_deadline_exceeded" }

parse_or_repair-IsSettled_example :
    (v : AgentVerdict) × ((parse_or_repair read_verdict invoke budget rules "run" evidence request
        timed_out).verdict
      ≡ some v)
    × (IsGrounded rules evidence v ⊎ IsClosed rules v)
parse_or_repair-IsSettled_example =
    parse_or_repair-IsSettled read_verdict invoke budget rules "run" evidence request timed_out
