-- ===== src/Agents/Coordinator/Rounds.antt =====
-- The specialists' round and the reconsideration (src/kalshi_bot/agents/coordinator.py).
use text.Mathlib.Text.{◌==◌ as str_eq}
use kalshi_trading_bot.Prelude.{
  Bool, false, not, ◌&&◌, ◌||◌, Option, none, some, List, [], ◌∷◌, ◌++◌, map, String, if◌then◌else◌,
  is_empty, is_some, select, find?, all,
}
use kalshi_trading_bot.Agents.Contracts.{
  AgentRole, bull_thesis, bear_thesis, master_synthesizer, is_role, AgentVerdict, EvidenceClaim,
  RoleConfig, CouncilBudget, CouncilPolicy, is_abstention, can_synthesize,
}
use kalshi_trading_bot.Agents.Policy.{calculate_policy, sorted_specialists, decision_name}
use kalshi_trading_bot.Agents.Coordinator.Budget.{BudgetLedger, can_reserve}
use kalshi_trading_bot.Agents.Coordinator.Calls.{
  Evidence, projection, revision, AgentRequest, AgentCall, RoleAttempt, request_of,
  fallback_attempt, fallback_verdict, record_usage,
}
use kalshi_trading_bot.Agents.Coordinator.Reading.{
  or_failure, parse_verdict, parse_or_repair, attempt_with,
}

-- What the coordinator reads of a profile; `active` says that its lifecycle is not `disabled`.
pub record CouncilProfile : Type 0 where
  pub domain : String
  pub active : Bool
  pub roles : List RoleConfig
  pub budget : CouncilBudget

-- `{attempt.verdict.verdict_id for …}`, where there is a verdict.
abbrev pub verdicts_of : List RoleAttempt → List AgentVerdict
verdicts_of [] = []
verdicts_of (attempt ∷ attempts) =
    let rest = verdicts_of attempts in
    elim attempt.verdict [ none ↦ rest | some verdict ↦ verdict ∷ rest ]

abbrev pub verdict_list : List RoleAttempt → List (Option AgentVerdict)
verdict_list attempts = map (λ (attempt : RoleAttempt). attempt.verdict) attempts

-- The roles in the order of their names.
abbrev pub roles_named : List AgentRole → List RoleConfig → List RoleConfig
roles_named [] configs = []
roles_named (role ∷ roles) configs =
    select (λ config. is_role config.role role) configs ++ roles_named roles configs

abbrev pub is_specialist : RoleConfig → Bool
is_specialist config = not (is_role config.role master_synthesizer)

-- `{attempt.role: attempt for …}`, in insertion order.
abbrev pub put_attempt : RoleAttempt → List RoleAttempt → List RoleAttempt
put_attempt attempt [] = attempt ∷ []
put_attempt attempt (other ∷ attempts) =
    let rest = put_attempt attempt attempts in
    if is_role other.role attempt.role then attempt ∷ attempts else other ∷ rest

abbrev pub prior_from : List RoleAttempt → List RoleAttempt → List RoleAttempt
prior_from prior [] = prior
prior_from prior (attempt ∷ attempts) =
    prior_from (if is_some attempt.verdict then put_attempt attempt prior else prior) attempts

abbrev pub has_attempt : AgentRole → List RoleAttempt → Bool
has_attempt role attempts =
    not (all (λ (attempt : RoleAttempt). not (is_role attempt.role role)) attempts)

abbrev pub belongs : String → String → RoleAttempt → Bool
belongs run_id bundle_hash attempt = elim attempt.verdict [
  | none ↦ false
  | some verdict ↦
      str_eq verdict.council_run_id run_id && str_eq verdict.evidence_bundle_hash bundle_hash
]

-- The last attempt of a role that has a verdict.
abbrev pub attempt_of : AgentRole → List RoleAttempt → Option RoleAttempt
attempt_of role [] = none
attempt_of role (attempt ∷ attempts) = elim (attempt_of role attempts) [
  | some found ↦ some found
  | none ↦ if is_role attempt.role role && is_some attempt.verdict then some attempt else none
]

abbrev pub claims_of : Option RoleAttempt → List EvidenceClaim
claims_of none = []
claims_of (some attempt) = elim attempt.verdict [ none ↦ [] | some verdict ↦ verdict.claims ]

abbrev pub objections_of : Option RoleAttempt → List EvidenceClaim
objections_of none = []
objections_of (some attempt) = elim attempt.verdict [
  | none ↦ []
  | some verdict ↦ verdict.counterevidence
]

-- Both sides decided in the revision, and not alike.
abbrev pub disagree : Option RoleAttempt → Option RoleAttempt → Bool
disagree none _ = false
disagree (some bull) none = false
disagree (some bull) (some bear) = elim bull.verdict [
  | none ↦ false
  | some b ↦ elim bear.verdict [
    | none ↦ false
    | some c ↦
        not (is_abstention b.decision)
        && not (is_abstention c.decision)
        && not (str_eq (decision_name b.decision) (decision_name c.decision))
  ]
]

abbrev pub record_all : List RoleAttempt → BudgetLedger → BudgetLedger
record_all [] ledger = ledger
record_all (attempt ∷ attempts) ledger =
    record_all attempts (record_usage attempt.verdict attempt.raw_output ledger)

-- `has_client` says for which roles there is a client, and `invoke` what it answers.
module _ (read_verdict : String → Option AgentVerdict) (has_client : AgentRole → Bool)
    (invoke : AgentRequest → AgentCall) (run_id : String) (evidence : Evidence)
    (profile : CouncilProfile) where
  unfoldable pub invoke_client : AgentRequest → AgentCall
  invoke_client request =
      if has_client request.role
      then invoke request
      else record { status = "failed"; raw_output = none; error = some "no_enabled_agent_client" }

  abbrev pub first_attempt : RoleConfig → RoleAttempt
  first_attempt role =
      let request = request_of role run_id 1 (projection role.role) in
      parse_or_repair read_verdict invoke_client profile.budget role run_id evidence request
        (invoke_client request)

  -- The calls run concurrently; their answers are read in the order of the roles' names.
  unfoldable pub first_round : List RoleConfig → List RoleAttempt
  first_round roles = map first_attempt (roles_named sorted_specialists roles)

  abbrev pub revised_attempt :
      RoleConfig → AgentRequest → AgentCall → Option AgentVerdict × List String → RoleAttempt
  revised_attempt role request call (some verdict, errors) =
      attempt_with request call verdict errors call.error
  revised_attempt role request call (none, errors) =
      attempt_with request call (fallback_verdict role run_id evidence 2 (or_failure errors call))
        errors call.error

  abbrev pub revise_role :
      Option RoleConfig
      → List EvidenceClaim
      → List EvidenceClaim
      → BudgetLedger
      → List RoleAttempt × BudgetLedger
  revise_role none claims objections ledger = ([], ledger)
  revise_role (some role) claims objections ledger =
      let request = request_of role run_id 2 (revision claims objections) in
      let call = invoke_client request in
      let attempt =
        revised_attempt role request call (parse_verdict read_verdict role request call evidence) in
      if not role.enabled || not (has_client role.role)
      then ([], ledger)
      else (if not (can_reserve ledger role profile.budget)
          then (fallback_attempt role run_id evidence "budget_exhausted" ∷ [], ledger)
          else (attempt ∷ [], record_usage attempt.verdict call.raw_output ledger))

  abbrev pub config_of : AgentRole → Option RoleConfig
  config_of role = find? (λ config. is_role config.role role) profile.roles

  unfoldable pub reconsider :
      List RoleAttempt → CouncilPolicy → BudgetLedger → List RoleAttempt × BudgetLedger
  reconsider attempts policy ledger =
      let bull = attempt_of bull_thesis attempts in
      let bear = attempt_of bear_thesis attempts in
      let (first, ledger1) =
        revise_role (config_of bull_thesis) (claims_of bull) (objections_of bear) ledger in
      let (second, ledger2) =
        revise_role (config_of bear_thesis) (claims_of bear) (objections_of bull) ledger1 in
      if not (can_synthesize policy) || (is_empty (claims_of bull) || is_empty (claims_of bear))
      then ([], ledger)
      else (first ++ second, ledger2)

  -- The policy after a reconsideration that made these revisions.
  abbrev pub revised_policy : List RoleAttempt → List RoleAttempt → CouncilPolicy → CouncilPolicy
  revised_policy attempts [] policy = policy
  revised_policy attempts (revised ∷ revisions) policy =
      let again = revised ∷ revisions in
      let next = calculate_policy profile.roles (verdict_list (attempts ++ again)) in
      if disagree (attempt_of bull_thesis again) (attempt_of bear_thesis again)
      then record next { reason_codes = next.reason_codes ++ "unresolved_disagreement" ∷ [] }
      else next
