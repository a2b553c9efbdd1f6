-- ===== src/Agents/Coordinator/Grounded.antt =====
-- What the reading of a role's answer lets through (src/kalshi_bot/agents/coordinator.py,
-- src/kalshi_bot/agents/validation.py).
use text.Mathlib.Text.{◌==◌ as str_eq}
use kalshi_trading_bot.Prelude.{
  ℕ, ◌≡◌, ◌⊎◌, subst, ◌==◌, refl, Bool, true, false, not, ◌&&◌, Option, none, some, List, [], ◌∷◌,
  ◌++◌, String, arith, inl, inr, if_both, is_empty,
}
use kalshi_trading_bot.Prelude.Text.{contains}
use kalshi_trading_bot.Agents.Contracts.{
  AgentVerdict, RoleConfig, CouncilBudget, is_role, is_critical, is_block, is_invalid, repaired,
  distinct, distinct_from,
}
use kalshi_trading_bot.Agents.Validation.{validate_verdict_artifact}
use kalshi_trading_bot.Agents.Coordinator.Calls.{
  Evidence, AgentRequest, AgentCall, RoleAttempt, fallback_verdict, format_repair_request,
}
use kalshi_trading_bot.Agents.Coordinator.Reading.{
  parse_verdict, parse_output, parse_raw, checked, parse_or_repair, parsed_or_repaired,
  repair_or_fail, repair_call, repaired_with, fail_closed, or_failure,
}
use kalshi_trading_bot.Agents.Coordinator.Take.{same_text, append-nil, no_last_error}

-- A verdict of this role about this evidence.
abbrev pub IsGrounded : RoleConfig → Evidence → AgentVerdict → Type 0
IsGrounded role evidence verdict =
    (is_invalid verdict.parse_status ≡ false)
    × (is_role verdict.role role.role ≡ true)
    × (verdict.evidence_bundle_hash ≡ evidence.bundle_hash)

-- A verdict that stops a council for which the role is critical.
abbrev pub IsClosed : RoleConfig → AgentVerdict → Type 0
IsClosed role verdict =
    (is_invalid verdict.parse_status ≡ true)
    × (is_critical role.criticality ≡ true → is_block verdict.decision ≡ true)

distinct-empty : (xs : List String) → is_empty (distinct xs) ≡ true → xs ≡ []
unfolding distinct_from contains
distinct-empty [] h = refl
distinct-empty (x ∷ xs) h = cc

empty_of : (xs : List String) → xs ≡ [] → is_empty xs ≡ true
empty_of xs e = rw e refl

negated : (b : Bool) → not b ≡ false → b ≡ true
negated b h = ground arith

validated :
    (verdict : AgentVerdict) (evidence : Evidence) (role : RoleConfig)
    → validate_verdict_artifact verdict evidence.bundle_hash evidence.evidence_ids role ≡ []
    → IsGrounded role evidence verdict
unfolding validate_verdict_artifact
validated verdict evidence role clean =
    let (rest, status) = append-nil _ _ (distinct-empty _ (empty_of _ clean)) in
    let (rest, _) = append-nil _ _ rest in
    let (rest, _) = append-nil _ _ rest in
    let (rest, _) = append-nil _ _ rest in
    let (rest, _) = append-nil _ _ rest in
    let (same_role, hash) = append-nil _ _ rest in
    (
      no_last_error _ _ status,
      negated (is_role verdict.role role.role) (no_last_error _ _ same_role),
      same_text verdict.evidence_bundle_hash evidence.bundle_hash (no_last_error _ _ hash),
    )

-- A reading gives a verdict only if it is grounded.
abbrev IsFiltered : RoleConfig → Evidence → Option AgentVerdict × List String → Type 0
IsFiltered role evidence read = (v : AgentVerdict) → read.0 ≡ some v → IsGrounded role evidence v

checked-IsFiltered :
    (role : RoleConfig) (evidence : Evidence) (artifact : AgentVerdict) (errors : List String)
    → (errors ≡ [] → IsGrounded role evidence artifact)
    → IsFiltered role evidence (checked artifact errors)
checked-IsFiltered role evidence artifact [] grounded v e =
    let same : artifact ≡ v = cc in subst (λ x. IsGrounded role evidence x) same (grounded refl)
checked-IsFiltered role evidence artifact (error ∷ errors) grounded v e = cc

parse_raw-IsFiltered :
    (read : Option AgentVerdict) (role : RoleConfig) (request : AgentRequest) (evidence : Evidence)
    → IsFiltered role evidence (parse_raw read role request evidence)
parse_raw-IsFiltered none role request evidence = λ v e. cc
parse_raw-IsFiltered (some artifact) role request evidence =
    let numbered : AgentVerdict = record artifact { attempt = request.attempt } in
    checked-IsFiltered role evidence numbered _
      (λ clean. validated numbered evidence role (append-nil _ _ clean).0)

module _ (read_verdict : String → Option AgentVerdict) (role : RoleConfig)
    (evidence : Evidence) where
  parse_output-IsFiltered :
      (raw : Option String) (request : AgentRequest) (call : AgentCall)
      → IsFiltered role evidence (parse_output read_verdict raw role request call evidence)
  parse_output-IsFiltered none request call = λ v e. cc
  parse_output-IsFiltered (some raw) request call =
      if_both (IsFiltered role evidence) (str_eq call.status "completed")
        (parse_raw (read_verdict raw) role request evidence) _
        (λ _. parse_raw-IsFiltered (read_verdict raw) role request evidence) (λ _. λ v e. cc)

  parse_verdict-IsFiltered :
      (request : AgentRequest) (call : AgentCall)
      → IsFiltered role evidence (parse_verdict read_verdict role request call evidence)
  unfolding parse_verdict
  parse_verdict-IsFiltered request call = parse_output-IsFiltered call.raw_output request call

  -- An attempt has a verdict, which is grounded or closed.
  abbrev IsSettled : RoleAttempt → Type 0
  IsSettled attempt =
      (v : AgentVerdict) × (attempt.verdict ≡ some v)
      × (IsGrounded role evidence v ⊎ IsClosed role v)

  fail_closed-IsSettled :
      (run_id : String) (request : AgentRequest) (call : AgentCall) (errors : List String)
      → IsSettled (fail_closed role run_id evidence request call errors)
  unfolding fallback_verdict
  fail_closed-IsSettled run_id request call errors = (
    fallback_verdict role run_id evidence request.attempt (or_failure errors call),
    refl,
    inr (refl, ground arith),
  )

  repaired_with-IsSettled :
      (read : Option AgentVerdict × List String) (run_id : String) (request : AgentRequest)
      (call : AgentCall) (errors : List String)
      → IsFiltered role evidence read
      → IsSettled (repaired_with read role run_id evidence request call errors)
  repaired_with-IsSettled (some v, again) run_id request call errors filtered =
      let (_, same, hash) = filtered v refl in
      (record v { parse_status = repaired }, refl, inl (refl, same, hash))
  repaired_with-IsSettled (none, again) run_id request call errors filtered =
      fail_closed-IsSettled run_id request call (distinct (errors ++ again))

  module _ (invoke : AgentRequest → AgentCall) (run_id : String) (request : AgentRequest)
      (call : AgentCall) where
    repair_or_fail-IsSettled :
        (raw : Option String) (retries : ℕ) (errors : List String)
        → IsSettled (
            repair_or_fail read_verdict invoke raw retries role run_id evidence request call errors)
    repair_or_fail-IsSettled none retries errors = fail_closed-IsSettled run_id request call errors
    repair_or_fail-IsSettled (some raw) retries errors =
        let again = format_repair_request request raw errors in
        if_both IsSettled
          (str_eq call.status "completed" && not (retries == 0) && (request.attempt == 1))
          (repair_call read_verdict invoke role run_id evidence request raw errors)
          (fail_closed role run_id evidence request call errors)
          (λ _.
            repaired_with-IsSettled _ run_id again (invoke again) errors
              (parse_verdict-IsFiltered again (invoke again)))
          (λ _. fail_closed-IsSettled run_id request call errors)

    parsed_or_repaired-IsSettled :
        (read : Option AgentVerdict × List String) (retries : ℕ)
        → IsFiltered role evidence read
        → IsSettled
            (parsed_or_repaired read_verdict invoke read retries role run_id evidence request call)
    parsed_or_repaired-IsSettled (some v, errors) retries filtered =
        (v, refl, inl (filtered v refl))
    parsed_or_repaired-IsSettled (none, errors) retries filtered =
        repair_or_fail-IsSettled call.raw_output retries errors

-- Whatever a client answers, a first-round attempt ends with a verdict. Either it is valid,
-- of the role that was asked and about this evidence, or it is invalid and, for a critical role,
-- blocks.
pub parse_or_repair-IsSettled :
    (read_verdict : String → Option AgentVerdict) (invoke : AgentRequest → AgentCall)
    (budget : CouncilBudget) (role : RoleConfig) (run_id : String) (evidence : Evidence)
    (request : AgentRequest) (call : AgentCall)
    → (v : AgentVerdict) × ((parse_or_repair read_verdict invoke budget role run_id evidence request
          call).verdict
        ≡ some v)
      × (IsGrounded role evidence v ⊎ IsClosed role v)
unfolding parse_or_repair
parse_or_repair-IsSettled read_verdict invoke budget role run_id evidence request call =
    parsed_or_repaired-IsSettled read_verdict role evidence invoke run_id request call
      (parse_verdict read_verdict role request call evidence) budget.max_format_retries
      (parse_verdict-IsFiltered read_verdict role evidence request call)
