-- ===== src/Agents/Coordinator/Run.antt =====
-- `CouncilCoordinator.run` (src/kalshi_bot/agents/coordinator.py).
use Prim.Native.Nat.{max}
use text.Mathlib.Text.{◌==◌ as str_eq}
use kalshi_trading_bot.Prelude.{
  ◌+◌, ◌/◌, Bool, not, ◌&&◌, ◌||◌, Option, none, some, List, [], ◌∷◌, ◌++◌, map, String, length,
  codes, ◌==◌, if◌then◌else◌, is_empty, is_some, get_or, select, find?, all, Outcome, ok, raised,
}
use kalshi_trading_bot.Agents.Contracts.{
  AgentRole, master_synthesizer, is_role, AgentVerdict, RoleConfig, CouncilPolicy, CouncilDecision,
  can_synthesize, distinct,
}
use kalshi_trading_bot.Agents.Policy.{calculate_policy}
use kalshi_trading_bot.Agents.Coordinator.Budget.{
  BudgetLedger, no_usage, can_reserve, reserve_roles,
}
use kalshi_trading_bot.Agents.Coordinator.Calls.{
  Evidence, synthesis, AgentRequest, AgentCall, RoleAttempt, request_of, failure_of,
  fallback_attempt,
}
use kalshi_trading_bot.Agents.Coordinator.Decision.{
  CouncilCandidate, hold_decision, decision_from_master,
}
use kalshi_trading_bot.Agents.Coordinator.Rounds.{
  CouncilProfile, verdicts_of, verdict_list, prior_from, has_attempt, belongs, is_specialist,
  record_all, invoke_client, first_round, reconsider, revised_policy,
}

pub data RunError : Type 0 where
  ids_differ domains_differ no_profile no_specialist foreign_attempts no_master : RunError

-- The attempts are in the order in which they were made.
pub record CouncilRunResult : Type 0 where
  pub attempts : List RoleAttempt
  pub policy : CouncilPolicy
  pub decision : CouncilDecision
  pub reason_codes : List String
  pub usage : BudgetLedger

abbrev pub master_failed : RoleConfig → String → RoleAttempt
master_failed role error = record {
  role = role.role;
  attempt = 1;
  status = "failed";
  verdict = none;
  raw_output = none;
  errors = error ∷ [];
  error = none;
}

abbrev pub master_answered : RoleConfig → AgentCall → RoleAttempt
master_answered role call =
    let answered = str_eq call.status "completed" && is_some call.raw_output in
    record {
      role = role.role;
      attempt = 1;
      status = call.status;
      verdict = none;
      raw_output = call.raw_output;
      errors = if answered then [] else failure_of call ∷ [];
      error = if answered then call.error else none;
    }

abbrev pub config_in : AgentRole → List RoleConfig → Option RoleConfig
config_in role configs = find? (λ config. is_role config.role role) configs

module _ (read_verdict : String → Option AgentVerdict)
    (read_decision : String → Option CouncilDecision) (has_client : AgentRole → Bool)
    (invoke : AgentRequest → AgentCall) (run_id : String) (candidate : CouncilCandidate)
    (evidence : Evidence) (profile : CouncilProfile) where
  unfoldable pub execute_master :
      RoleConfig → List RoleAttempt → CouncilPolicy → BudgetLedger → RoleAttempt × BudgetLedger
  execute_master role attempts policy ledger =
      let call =
        invoke_client read_verdict has_client invoke run_id evidence profile
          (request_of role run_id 1 (synthesis policy (verdicts_of attempts))) in
      let used = max 1 (length (codes (get_or call.raw_output "")) / 4) in
      if not role.enabled || not (has_client role.role)
      then (master_failed role "master_client_unavailable", ledger)
      else (if not (can_reserve ledger role profile.budget)
          then (fallback_attempt role run_id evidence "budget_exhausted", ledger)
          else (
            master_answered role call,
            record ledger { output_tokens = ledger.output_tokens + used },
          ))

  abbrev pub held : List RoleAttempt → CouncilPolicy → BudgetLedger → CouncilRunResult
  held attempts policy ledger = record {
    attempts = attempts;
    policy = policy;
    decision = hold_decision run_id policy "deterministic policy did not permit synthesis";
    reason_codes = distinct (policy.reason_codes ++ "hold_before_master" ∷ []);
    usage = ledger;
  }

  abbrev pub mastered :
      RoleAttempt × BudgetLedger → List RoleAttempt → CouncilPolicy → CouncilRunResult
  mastered (master, ledger) attempts policy =
      let all_attempts = attempts ++ master ∷ [] in
      record {
        attempts = all_attempts;
        policy = policy;
        decision =
            decision_from_master read_decision master candidate policy run_id
              (map (λ (verdict : AgentVerdict). verdict.verdict_id) (verdicts_of all_attempts));
        reason_codes = distinct (policy.reason_codes ++ master.errors);
        usage = ledger;
      }

  -- A profile has a master, by its validator; without one the source's `next` would raise.
  abbrev pub mastered_by :
      Option RoleConfig
      → List RoleAttempt
      → CouncilPolicy
      → BudgetLedger
      → Outcome RunError CouncilRunResult
  mastered_by none attempts policy ledger = raised no_master
  mastered_by (some role) attempts policy ledger =
      ok (mastered (execute_master role attempts policy ledger) attempts policy)

  unfoldable pub conclude :
      List RoleAttempt → CouncilPolicy → BudgetLedger → Outcome RunError CouncilRunResult
  conclude attempts policy ledger =
      if can_synthesize policy
      then mastered_by (config_in master_synthesizer profile.roles) attempts policy ledger
      else ok (held attempts policy ledger)

  -- From the first policy on.
  abbrev pub after_policy :
      Bool → List RoleAttempt → CouncilPolicy → BudgetLedger → Outcome RunError CouncilRunResult
  after_policy reconsiders attempts policy ledger =
      let (revisions, ledger') =
        reconsider read_verdict has_client invoke run_id evidence profile attempts policy ledger in
      if reconsiders && not (profile.budget.max_reconsideration_rounds == 0)
      then conclude (attempts ++ revisions)
          (revised_policy read_verdict has_client invoke run_id evidence profile attempts revisions
            policy)
          ledger'
      else conclude attempts policy ledger

  abbrev pub review_candidate : Bool → List RoleAttempt → Outcome RunError CouncilRunResult
  review_candidate reconsiders completed =
      let prior = prior_from [] completed in
      let waiting =
        select (λ role. is_specialist role && role.enabled && not (has_attempt role.role prior))
          profile.roles in
      let (reserved, skipped) = reserve_roles profile.budget waiting in
      let refused =
        map (λ role. fallback_attempt role run_id evidence "budget_exhausted") skipped in
      let answered = first_round read_verdict has_client invoke run_id evidence profile reserved in
      let attempts = prior ++ refused ++ answered in
      after_policy reconsiders attempts (calculate_policy profile.roles (verdict_list attempts))
        (record_all answered no_usage)

abbrev pub no_client_for : (AgentRole → Bool) → List RoleConfig → Bool
no_client_for has_client roles =
    is_empty (select (λ role. is_specialist role && role.enabled && has_client role.role) roles)

abbrev pub profile_refusal :
    (AgentRole → Bool)
    → String
    → CouncilCandidate
    → Evidence
    → List RoleAttempt
    → Option CouncilProfile
    → Option RunError
profile_refusal has_client run_id candidate evidence completed none = some no_profile
profile_refusal has_client run_id candidate evidence completed (some profile) =
    if not (str_eq profile.domain candidate.domain) || not profile.active
    then some no_profile
    else (if no_client_for has_client profile.roles
        then some no_specialist
        else (if not (all (belongs run_id evidence.bundle_hash) completed)
            then some foreign_attempts
            else none))

-- The checks before anything is called, in the source's order.
abbrev pub run_refusal :
    (AgentRole → Bool)
    → String
    → CouncilCandidate
    → Evidence
    → List RoleAttempt
    → Option CouncilProfile
    → Option RunError
run_refusal has_client run_id candidate evidence completed profile =
    if not (str_eq candidate.candidate_id evidence.candidate_id)
    then some ids_differ
    else (if not (str_eq candidate.domain evidence.domain)
        then some domains_differ
        else profile_refusal has_client run_id candidate evidence completed profile)

module _ (read_verdict : String → Option AgentVerdict)
    (read_decision : String → Option CouncilDecision) (has_client : AgentRole → Bool)
    (invoke : AgentRequest → AgentCall) (run_id : String) (candidate : CouncilCandidate)
    (evidence : Evidence) where
  abbrev pub start :
      Option RunError
      → Option CouncilProfile
      → Bool
      → List RoleAttempt
      → Outcome RunError CouncilRunResult
  start (some error) profile reconsiders completed = raised error
  start none none reconsiders completed = raised no_profile
  start none (some profile) reconsiders completed =
      review_candidate read_verdict read_decision has_client invoke run_id candidate evidence
        profile reconsiders completed

  -- `profile` is what `resolve_profile` finds for the candidate.
  unfoldable pub run :
      Option CouncilProfile → Bool → List RoleAttempt → Outcome RunError CouncilRunResult
  run profile reconsiders completed =
      start (run_refusal has_client run_id candidate evidence completed profile) profile reconsiders
        completed
