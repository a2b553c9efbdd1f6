-- ===== src/Agents/Coordinator/Sound.antt =====
-- What `CouncilCoordinator.run` (src/kalshi_bot/agents/coordinator.py) has seen when it decides to take a
-- trade.
use kalshi_trading_bot.Prelude.{
  ◌≡◌, refl, subst, Bool, true, false, not, ◌&&◌, ◌||◌, Option, none, some, List, [], ◌∷◌, ◌++◌,
  String, arith, if_both, if◌then◌else◌, ◌==◌, Outcome, ok, raised,
}
use mathlib.Core.List.{append-nil}
use kalshi_trading_bot.Agents.Contracts.{
  AgentRole, master_synthesizer, is_role, AgentVerdict, RoleConfig, CouncilDecision, CouncilPolicy,
  is_take, can_synthesize, bull_thesis, bear_thesis,
}
use kalshi_trading_bot.Agents.Policy.Clearance.{IsCleared, can_synthesize_iff}
use kalshi_trading_bot.Agents.Coordinator.Budget.{BudgetLedger, can_reserve}
use kalshi_trading_bot.Agents.Coordinator.Calls.{
  Evidence, AgentRequest, AgentCall, RoleAttempt, fallback_attempt, fallback_verdict,
}
use kalshi_trading_bot.Agents.Coordinator.Decision.{CouncilCandidate, hold_decision}
use kalshi_trading_bot.Agents.Coordinator.Rounds.{
  CouncilProfile, verdict_list, revised_policy, reconsider, disagree, attempt_of,
}
use kalshi_trading_bot.Agents.Coordinator.Run.{
  RunError, CouncilRunResult, run, start, run_refusal, conclude, held, mastered, mastered_by,
  execute_master, config_in, after_policy, review_candidate,
}
use kalshi_trading_bot.Agents.Coordinator.Take.{IsWithin, decision_from_master-IsSafe}
use kalshi_trading_bot.Agents.Coordinator.Master.{
  IsMasters, IsCleared-append, config_in-master, verdict_list-snoc,
}

-- A decision to take, and what it rests on.
pub record IsSound (candidate : CouncilCandidate) (run_id : String) (roles : List RoleConfig)
    (result : CouncilRunResult) : Type 0 where
  pub allowed : can_synthesize result.policy ≡ true
  pub cleared : IsCleared roles (verdict_list result.attempts)
  pub within : IsWithin candidate run_id result.decision

module _ (read_verdict : String → Option AgentVerdict)
    (read_decision : String → Option CouncilDecision) (has_client : AgentRole → Bool)
    (invoke : AgentRequest → AgentCall) (run_id : String) (candidate : CouncilCandidate)
    (evidence : Evidence) (profile : CouncilProfile) where
  IsSoundRun : Outcome RunError CouncilRunResult → Type 0
  IsSoundRun outcome =
      (result : CouncilRunResult)
      → outcome ≡ ok result
      → is_take result.decision.outcome ≡ true
      → IsSound candidate run_id profile.roles result

  refused_run : (error : RunError) → IsSoundRun (raised error)
  unfolding IsSoundRun
  refused_run error result e takes = cc

  abbrev HasMaster : RoleAttempt × BudgetLedger → Type 0
  HasMaster answer = IsMasters answer.0.verdict

  execute_master-HasMaster :
      (role : RoleConfig) (attempts : List RoleAttempt) (policy : CouncilPolicy)
      (ledger : BudgetLedger)
      → is_role role.role master_synthesizer ≡ true
      → HasMaster (
          execute_master read_verdict read_decision has_client invoke run_id candidate evidence
            profile role attempts policy ledger)
  unfolding execute_master fallback_attempt fallback_verdict
  execute_master-HasMaster role attempts policy ledger master =
      if_both HasMaster (not role.enabled || not (has_client role.role)) _ _ (λ _. λ v e. cc)
        (λ _.
          if_both HasMaster (not (can_reserve ledger role profile.budget)) _ _
            (λ _. λ v e. ground (arith, master)) (λ _. λ v e. cc))

  same_result :
      (r s : CouncilRunResult) → ◌≡◌ {A = Outcome RunError CouncilRunResult} (ok r) (ok s) → r ≡ s
  same_result r s e = cc

  made_run :
      (r : CouncilRunResult)
      → (is_take r.decision.outcome ≡ true → IsSound candidate run_id profile.roles r)
      → IsSoundRun (ok r)
  unfolding IsSoundRun
  made_run r sound result e takes =
      subst (λ x. is_take x.decision.outcome ≡ true → IsSound candidate run_id profile.roles x)
        (same_result r result e) sound takes

  held-IsSoundRun :
      (attempts : List RoleAttempt) (policy : CouncilPolicy) (ledger : BudgetLedger)
      → IsSoundRun (
          ok (
            held read_verdict read_decision has_client invoke run_id candidate evidence profile
              attempts policy ledger))
  unfolding hold_decision
  held-IsSoundRun attempts policy ledger =
      made_run
        (held read_verdict read_decision has_client invoke run_id candidate evidence profile
          attempts policy ledger)
        (λ takes. cc)

  mastered_by-IsSoundRun :
      (config : Option RoleConfig) (attempts : List RoleAttempt) (policy : CouncilPolicy)
      (ledger : BudgetLedger)
      → config_in master_synthesizer profile.roles ≡ config
      → can_synthesize policy ≡ true
      → IsCleared profile.roles (verdict_list attempts)
      → IsSoundRun (
          mastered_by read_verdict read_decision has_client invoke run_id candidate evidence profile
            config attempts policy ledger)
  mastered_by-IsSoundRun none attempts policy ledger e allowed cleared = refused_run _
  mastered_by-IsSoundRun (some role) attempts policy ledger e allowed cleared =
      let answer =
        execute_master read_verdict read_decision has_client invoke run_id candidate evidence
          profile role attempts policy ledger in
      let masters =
        execute_master-HasMaster role attempts policy ledger
          (config_in-master profile.roles role e) in
      made_run
        (mastered read_verdict read_decision has_client invoke run_id candidate evidence profile
          answer attempts policy)
        (λ takes. record {
          allowed = allowed;
          cleared = rw (verdict_list-snoc attempts answer.0) (
              IsCleared-append profile.roles (verdict_list attempts) answer.0.verdict masters
                cleared);
          within =
              decision_from_master-IsSafe candidate run_id policy _ read_decision answer.0 takes;
        })

  conclude-IsSoundRun :
      (attempts : List RoleAttempt) (policy : CouncilPolicy) (ledger : BudgetLedger)
      → (can_synthesize policy ≡ true → IsCleared profile.roles (verdict_list attempts))
      → IsSoundRun (
          conclude read_verdict read_decision has_client invoke run_id candidate evidence profile
            attempts policy ledger)
  unfolding conclude
  conclude-IsSoundRun attempts policy ledger cleared =
      if_both IsSoundRun (can_synthesize policy) _ _
        (λ allowed.
          mastered_by-IsSoundRun (config_in master_synthesizer profile.roles) attempts policy ledger
            refl allowed (cleared allowed))
        (λ _. held-IsSoundRun attempts policy ledger)

  undisputed :
      (disputed : Bool) (next : CouncilPolicy)
      → can_synthesize (
          if disputed
          then record next { reason_codes = next.reason_codes ++ "unresolved_disagreement" ∷ [] }
          else next)
        ≡ true
      → can_synthesize next ≡ true
  unfolding can_synthesize
  undisputed true next h = ground arith
  undisputed false next h = h

  revised_policy-IsCleared :
      (attempts revisions : List RoleAttempt) (policy : CouncilPolicy)
      → (can_synthesize policy ≡ true → IsCleared profile.roles (verdict_list attempts))
      → can_synthesize (
          revised_policy read_verdict has_client invoke run_id evidence profile attempts revisions
            policy)
        ≡ true
      → IsCleared profile.roles (verdict_list (attempts ++ revisions))
  revised_policy-IsCleared attempts [] policy cleared allowed =
      rw (append-nil attempts) (cleared allowed)
  revised_policy-IsCleared attempts (revised ∷ revisions) policy cleared allowed =
      let again = revised ∷ revisions in
      (can_synthesize_iff profile.roles (verdict_list (attempts ++ again))).0 (
        undisputed (disagree (attempt_of bull_thesis again) (attempt_of bear_thesis again)) _
          allowed)

  after_policy-IsSoundRun :
      (reconsiders : Bool) (attempts : List RoleAttempt) (policy : CouncilPolicy)
      (ledger : BudgetLedger)
      → (can_synthesize policy ≡ true → IsCleared profile.roles (verdict_list attempts))
      → IsSoundRun (
          after_policy read_verdict read_decision has_client invoke run_id candidate evidence
            profile reconsiders attempts policy ledger)
  after_policy-IsSoundRun reconsiders attempts policy ledger cleared =
      let answer =
        reconsider read_verdict has_client invoke run_id evidence profile attempts policy ledger in
      let revised =
        revised_policy read_verdict has_client invoke run_id evidence profile attempts answer.0
          policy in
      if_both IsSoundRun (reconsiders && not (profile.budget.max_reconsideration_rounds == 0))
        (conclude read_verdict read_decision has_client invoke run_id candidate evidence profile
          (attempts ++ answer.0) revised answer.1)
        (conclude read_verdict read_decision has_client invoke run_id candidate evidence profile
          attempts policy ledger)
        (λ _.
          conclude-IsSoundRun (attempts ++ answer.0) revised answer.1
            (revised_policy-IsCleared attempts answer.0 policy cleared))
        (λ _. conclude-IsSoundRun attempts policy ledger cleared)

  review_candidate-IsSoundRun :
      (reconsiders : Bool) (completed : List RoleAttempt)
      → IsSoundRun (
          review_candidate read_verdict read_decision has_client invoke run_id candidate evidence
            profile reconsiders completed)
  review_candidate-IsSoundRun reconsiders completed =
      after_policy-IsSoundRun reconsiders _ _ _
        (λ allowed. (can_synthesize_iff profile.roles _).0 allowed)

  start-IsSoundRun :
      (refusal : Option RunError) (reconsiders : Bool) (completed : List RoleAttempt)
      → IsSoundRun (
          start read_verdict read_decision has_client invoke run_id candidate evidence refusal
            (some profile)
            reconsiders
            completed)
  start-IsSoundRun (some error) reconsiders completed = refused_run error
  start-IsSoundRun none reconsiders completed = review_candidate-IsSoundRun reconsiders completed

-- A council run that decides to take a trade has a policy that allows it: both the bull and the bear have
-- a valid verdict that does not abstain, and every critical specialist's last verdict is valid and
-- blocks nothing. The decision carries the id of this run, keeps the candidate's action, and is
-- no looser than the candidate's price and size. This holds whatever the clients answer, with and without a
-- reconsideration.
pub run_take-IsSound :
    (read_verdict : String → Option AgentVerdict) (read_decision : String → Option CouncilDecision)
    (has_client : AgentRole → Bool) (invoke : AgentRequest → AgentCall) (run_id : String)
    (candidate : CouncilCandidate) (evidence : Evidence) (profile : CouncilProfile)
    (reconsiders : Bool) (completed : List RoleAttempt) {result : CouncilRunResult}
    → run read_verdict read_decision has_client invoke run_id candidate evidence
        (some profile)
        reconsiders
        completed
      ≡ ok result
    → is_take result.decision.outcome ≡ true
    → IsSound candidate run_id profile.roles result
unfolding IsSoundRun run
run_take-IsSound read_verdict read_decision has_client invoke run_id candidate evidence profile
      reconsiders completed {result} made takes =
    start-IsSoundRun read_verdict read_decision has_client invoke run_id candidate evidence profile
      (run_refusal has_client run_id candidate evidence completed (some profile)) reconsiders
      completed result made takes
