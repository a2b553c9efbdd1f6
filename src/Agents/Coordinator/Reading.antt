-- ===== src/Agents/Coordinator/Reading.antt =====
-- The reading of a role's answer and its one repair (src/kalshi_bot/agents/coordinator.py).
use text.Mathlib.Text.{◌==◌ as str_eq}
use kalshi_trading_bot.Prelude.{
  ℕ, not, ◌&&◌, Option, none, some, List, [], ◌∷◌, ◌++◌, String, ◌==◌, if◌then◌else◌, is_empty,
}
use kalshi_trading_bot.Agents.Contracts.{
  AgentVerdict, RoleConfig, CouncilBudget, repaired, distinct,
}
use kalshi_trading_bot.Agents.Validation.{error_if, validate_verdict_artifact}
use kalshi_trading_bot.Agents.Coordinator.Calls.{
  Evidence, AgentRequest, AgentCall, RoleAttempt, format_repair_request, before_colon, failure_of,
  fallback_verdict,
}

-- A reading of an artifact: the artifact, where there are no errors, and the errors.
abbrev pub checked : AgentVerdict → List String → Option AgentVerdict × List String
checked artifact errors = (if is_empty errors then some artifact else none, errors)

abbrev pub parse_raw :
    Option AgentVerdict → RoleConfig → AgentRequest → Evidence → Option AgentVerdict × List String
parse_raw none role request evidence = (none, "schema:ValidationError" ∷ [])
parse_raw (some artifact) role request evidence =
    let numbered = record artifact { attempt = request.attempt } in
    checked numbered (
      validate_verdict_artifact numbered evidence.bundle_hash evidence.evidence_ids role
      ++ error_if (not (str_eq numbered.council_run_id (before_colon request.agent_id)))
          "council_run_mismatch")

abbrev pub parse_output :
    (String → Option AgentVerdict)
    → Option String
    → RoleConfig
    → AgentRequest
    → AgentCall
    → Evidence
    → Option AgentVerdict × List String
parse_output read_verdict none role request call evidence = (none, failure_of call ∷ [])
parse_output read_verdict (some raw) role request call evidence =
    if str_eq call.status "completed"
    then parse_raw (read_verdict raw) role request evidence
    else (none, failure_of call ∷ [])

-- `read_verdict` is `AgentVerdictArtifact.model_validate_json`, `none` where it raises.
unfoldable pub parse_verdict :
    (String → Option AgentVerdict)
    → RoleConfig
    → AgentRequest
    → AgentCall
    → Evidence
    → Option AgentVerdict × List String
parse_verdict read_verdict role request call evidence =
    parse_output read_verdict call.raw_output role request call evidence

abbrev pub attempt_with :
    AgentRequest → AgentCall → AgentVerdict → List String → Option String → RoleAttempt
attempt_with request call verdict errors error = record {
  role = request.role;
  attempt = request.attempt;
  status = call.status;
  verdict = some verdict;
  raw_output = call.raw_output;
  errors = errors;
  error = error;
}

abbrev pub or_failure : List String → AgentCall → List String
or_failure [] call = failure_of call ∷ []
or_failure (error ∷ errors) call = error ∷ errors

abbrev pub fail_closed :
    RoleConfig → String → Evidence → AgentRequest → AgentCall → List String → RoleAttempt
fail_closed role run_id evidence request call errors =
    attempt_with request call
      (fallback_verdict role run_id evidence request.attempt (or_failure errors call)) errors
      call.error

abbrev pub repaired_with :
    Option AgentVerdict × List String
    → RoleConfig
    → String
    → Evidence
    → AgentRequest
    → AgentCall
    → List String
    → RoleAttempt
repaired_with (some verdict, repair_errors) role run_id evidence request call errors =
    attempt_with request call (record verdict { parse_status = repaired }) repair_errors call.error
repaired_with (none, repair_errors) role run_id evidence request call errors =
    fail_closed role run_id evidence request call (distinct (errors ++ repair_errors))

-- `invoke` is the clients' answer to a request.
module _ (read_verdict : String → Option AgentVerdict) (invoke : AgentRequest → AgentCall) where
  abbrev pub repair_call :
      RoleConfig → String → Evidence → AgentRequest → String → List String → RoleAttempt
  repair_call role run_id evidence request raw errors =
      let again = format_repair_request request raw errors in
      let call = invoke again in
      repaired_with (parse_verdict read_verdict role again call evidence) role run_id evidence again
        call errors

  abbrev pub repair_or_fail :
      Option String
      → ℕ
      → RoleConfig
      → String
      → Evidence
      → AgentRequest
      → AgentCall
      → List String
      → RoleAttempt
  repair_or_fail none retries role run_id evidence request call errors =
      fail_closed role run_id evidence request call errors
  repair_or_fail (some raw) retries role run_id evidence request call errors =
      if str_eq call.status "completed" && not (retries == 0) && (request.attempt == 1)
      then repair_call role run_id evidence request raw errors
      else fail_closed role run_id evidence request call errors

  abbrev pub parsed_or_repaired :
      Option AgentVerdict × List String
      → ℕ
      → RoleConfig
      → String
      → Evidence
      → AgentRequest
      → AgentCall
      → RoleAttempt
  parsed_or_repaired (some verdict, errors) retries role run_id evidence request call =
      attempt_with request call verdict [] none
  parsed_or_repaired (none, errors) retries role run_id evidence request call =
      repair_or_fail call.raw_output retries role run_id evidence request call errors

  unfoldable pub parse_or_repair :
      CouncilBudget → RoleConfig → String → Evidence → AgentRequest → AgentCall → RoleAttempt
  parse_or_repair budget role run_id evidence request call =
      parsed_or_repaired (parse_verdict read_verdict role request call evidence)
        budget.max_format_retries role run_id evidence request call
