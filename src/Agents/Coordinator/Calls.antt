-- ===== src/Agents/Coordinator/Calls.antt =====
-- One role's call (src/kalshi_bot/agents/coordinator.py, src/kalshi_bot/agents/gateway.py): its request, the
-- fail-closed fallback and the usage.
use Prim.Native.Char.{code}
use Prim.Native.Nat.{max}
use Prim.Native.String.{◌++◌ as ◌+++◌}
use kalshi_trading_bot.Prelude.{
  ℕ, suc, ◌+◌, ◌/◌, Option, none, some, List, [], ◌∷◌, String, length, codes, ◌==◌, if◌then◌else◌,
  is_empty_text,
}
use kalshi_trading_bot.Agents.Contracts.{
  AgentRole, role_name, AgentVerdict, EvidenceClaim, RoleConfig, CouncilPolicy, is_critical,
  abstain, block, warn, blocking, invalid, distinct,
}
use kalshi_trading_bot.Agents.Coordinator.Budget.{BudgetLedger}

-- A bundle by its hash and the ids of its items.
pub record Evidence : Type 0 where
  pub candidate_id : String
  pub domain : String
  pub bundle_hash : String
  pub evidence_ids : List String

-- What a request is about; the texts that are made from it are left out.
pub data Payload : Type 0 where
  projection : AgentRole → Payload
  repair : String → List String → Payload
  revision : List EvidenceClaim → List EvidenceClaim → Payload
  synthesis : CouncilPolicy → List AgentVerdict → Payload

pub record AgentRequest : Type 0 where
  pub role : AgentRole
  pub agent_id : String
  pub payload : Payload
  pub max_output_tokens : ℕ
  pub max_cost : ℕ
  pub attempt : ℕ

pub record AgentCall : Type 0 where
  pub status : String
  pub raw_output : Option String
  pub error : Option String

pub record RoleAttempt : Type 0 where
  pub role : AgentRole
  pub attempt : ℕ
  pub status : String
  pub verdict : Option AgentVerdict
  pub raw_output : Option String
  pub errors : List String
  pub error : Option String

unfoldable pub request_of : RoleConfig → String → ℕ → Payload → AgentRequest
request_of role run_id attempt payload = record {
  role = role.role;
  agent_id = run_id +++ ":" +++ role_name role.role;
  payload = payload;
  max_output_tokens = role.max_output_tokens;
  max_cost = role.max_cost;
  attempt = attempt;
}

unfoldable pub format_repair_request : AgentRequest → String → List String → AgentRequest
format_repair_request request raw_output errors = record request {
  payload = repair raw_output (distinct errors);
  attempt = suc request.attempt;
}

-- `text.split(":", 1)[0]`
unfoldable pub before_colon : String → String
before_colon String.[] = ""
before_colon (String.◌∷◌ c s) =
    let rest = before_colon s in if code c == 58 then "" else String.◌∷◌ c rest

-- `text or default`
abbrev pub or_text : Option String → String → String
or_text none default = default
or_text (some text) default = if is_empty_text text then default else text

abbrev pub failure_of : AgentCall → String
failure_of call = or_text call.error call.status

-- An attempt is the first or the second.
abbrev pub attempt_text : ℕ → String
attempt_text attempt = if attempt == 1 then "1" else "2"

unfoldable pub fallback_verdict : RoleConfig → String → Evidence → ℕ → List String → AgentVerdict
fallback_verdict role run_id evidence attempt errors = record {
  verdict_id =
      run_id +++ "-" +++ role_name role.role +++ "-" +++ attempt_text attempt +++ "-fallback";
  council_run_id = run_id;
  role = role.role;
  evidence_bundle_hash = evidence.bundle_hash;
  attempt = attempt;
  decision = if is_critical role.criticality then block else abstain;
  severity = if is_critical role.criticality then blocking else warn;
  claims = [];
  counterevidence = [];
  reason_codes = distinct errors;
  proposed_action = none;
  price_ceiling = none;
  size_ceiling = none;
  output_tokens = 0;
  cost = 0;
  parse_status = invalid;
}

unfoldable pub fallback_attempt : RoleConfig → String → Evidence → String → RoleAttempt
fallback_attempt role run_id evidence reason = record {
  role = role.role;
  attempt = 1;
  status = "not_started";
  verdict = some (fallback_verdict role run_id evidence 1 (reason ∷ []));
  raw_output = none;
  errors = reason ∷ [];
  error = none;
}

-- `ledger.record(verdict, raw_output)`
unfoldable pub record_usage : Option AgentVerdict → Option String → BudgetLedger → BudgetLedger
record_usage (some verdict) raw_output ledger = record {
  output_tokens = ledger.output_tokens + verdict.output_tokens;
  cost = ledger.cost + verdict.cost;
}
record_usage none none ledger = ledger
record_usage none (some raw) ledger =
    if is_empty_text raw
    then ledger
    else record ledger { output_tokens = ledger.output_tokens + max 1 (length (codes raw) / 4) }
