-- ===== src/Governance/Lifecycle.antt =====
-- `LifecycleGovernor` of src/kalshi_bot/risk/governance.py and the states of
-- src/kalshi_bot/config/lifecycle.py: the append-only promotion and demotion ledger, one scope for
-- each asset, domain and candidate.
pub mod States
pub mod Records
pub mod Ladder
pub mod Demotion
pub mod Scopes
pub mod Trace
pub mod Readback
mod Tests
pub use States.*
unfoldable pub use Records.*
use Prim.Native.String.{◌++◌}
use text.Mathlib.Text.{◌==◌ as str_eq}
use kalshi_trading_bot.Prelude.{
  ℕ, Bool, true, false, not, ◌&&◌, ◌||◌, Option, none, some, List, [], ◌∷◌, String, Outcome, ok,
  raised, ◌>>=◌, contains, is_blank, is_empty_text, if◌then◌else◌, all, find?, is_empty,
}
use kalshi_trading_bot.Prelude.Int.{ℤ, pos, ◌-ℤ◌, ltb_ℤ, leb_ℤ}

-- `_latest`: the newest row of one scope.
unfoldable pub latest : String → TransitionLedger → Option TransitionRow
latest key rows = find? (λ row. str_eq row.scope_key key) rows

-- The state of a scope by its newest row; a text that is no state raises.
unfoldable pub state_of :
    LifecycleState → String → TransitionLedger → Outcome LifecycleError LifecycleState
state_of default key rows = elim (latest key rows) [
  | none ↦ ok default
  | some row ↦ validate_lifecycle row.to_state
]

unfoldable pub current_state :
    LifecycleState
    → String
    → String
    → String
    → TransitionLedger
    → Outcome LifecycleError LifecycleState
current_state default asset domain candidate rows =
    state_of default (scope_key asset domain candidate) rows

-- The arguments of `promote`; `now` is what `now_fn()` returns.
pub record PromoteRequest : Type 0 where
  pub asset_id : String
  pub domain : String
  pub candidate : String
  pub to_state : String
  pub operator : String
  pub evidence : PromotionEvidence
  pub required_gates : List String
  pub now : ℕ

unfoldable pub promote_row : PromoteRequest → LifecycleState → LifecycleState → TransitionRow
promote_row request current target = record {
  scope_key = scope_key request.asset_id request.domain request.candidate;
  asset_id = request.asset_id;
  domain = request.domain;
  candidate = request.candidate;
  direction = promotion;
  from_state = state_name current;
  to_state = state_name target;
  trigger = "operator_promotion";
  reason = gates_passed request.required_gates;
  created_at = request.now;
  operator = some request.operator;
  report_id = some request.evidence.report_id;
  data_manifest_hash = some request.evidence.data_manifest_hash;
  model_fingerprint = some request.evidence.model_fingerprint;
  risk_policy_version = some request.evidence.risk_policy_version;
  gate_results = some request.evidence.gate_results;
}

-- The checks of `promote` between the reading of the current state and the new row.
unfoldable pub promotion_refusal :
    PromoteRequest → LifecycleState → LifecycleState → Option LifecycleError
unfolding ladder_rank ◌-ℤ◌
promotion_refusal request current target =
    let missing = missing_fingerprints request.evidence in
    let failed = failing_gates request.evidence request.required_gates in
    if is_state current blocked
    then some scope_blocked
    else (if leb_ℤ (ladder_rank target) (ladder_rank current)
        then some (not_forward current target)
        else (if ltb_ℤ (pos 1) (ladder_rank target -ℤ ladder_rank current)
            then some (skips_stage current target)
            else (if not (is_empty missing)
                then some (no_fingerprints missing)
                else (if not (is_empty failed) then some (gates_failing failed) else none))))

abbrev settle :
    Option LifecycleError
    → LifecycleState
    → TransitionRow
    → TransitionLedger
    → Outcome LifecycleError LifecycleState × TransitionLedger
settle (some error) target row rows = (raised error, rows)
settle none target row rows = (ok target, row ∷ rows)

abbrev promote_from :
    PromoteRequest
    → LifecycleState
    → Outcome LifecycleError LifecycleState
    → TransitionLedger
    → Outcome LifecycleError LifecycleState × TransitionLedger
promote_from request target (raised error) rows = (raised error, rows)
promote_from request target (ok current) rows =
    settle (promotion_refusal request current target) target (promote_row request current target)
      rows

abbrev promote_to :
    LifecycleState
    → PromoteRequest
    → Outcome LifecycleError LifecycleState
    → TransitionLedger
    → Outcome LifecycleError LifecycleState × TransitionLedger
promote_to default request (raised error) rows = (raised error, rows)
promote_to default request (ok target) rows =
    if is_state target blocked || is_state target disabled
    then (raised use_demote, rows)
    else (if is_blank request.operator
        then (raised no_operator, rows)
        else promote_from request target
            (current_state default request.asset_id request.domain request.candidate rows) rows)

-- The class's `default_state` is the first argument.
unfoldable pub promote :
    LifecycleState
    → PromoteRequest
    → TransitionLedger
    → Outcome LifecycleError LifecycleState × TransitionLedger
promote default request rows = promote_to default request (validate_lifecycle request.to_state) rows

-- The arguments of `demote`.
pub record DemoteRequest : Type 0 where
  pub asset_id : String
  pub domain : String
  pub candidate : String
  pub trigger : String
  pub reason : String
  pub to_state : String
  pub operator : Option String
  pub now : ℕ

unfoldable pub demote_row : DemoteRequest → LifecycleState → LifecycleState → TransitionRow
demote_row request current target = record {
  scope_key = scope_key request.asset_id request.domain request.candidate;
  asset_id = request.asset_id;
  domain = request.domain;
  candidate = request.candidate;
  direction = demotion;
  from_state = state_name current;
  to_state = state_name target;
  trigger = request.trigger;
  reason = given request.reason;
  created_at = request.now;
  operator = request.operator;
  report_id = none;
  data_manifest_hash = none;
  model_fingerprint = none;
  risk_policy_version = none;
  gate_results = none;
}

-- `_ORDER[target] >= _ORDER[current] >= 0`, for a target that is not `blocked`.
unfoldable pub demotion_refusal : LifecycleState → LifecycleState → Option LifecycleError
unfolding ladder_rank
demotion_refusal current target =
    if not (is_state target blocked)
      && (leb_ℤ (ladder_rank current) (ladder_rank target) && leb_ℤ (pos 0) (ladder_rank current))
    then some (not_backward current target)
    else none

abbrev demote_from :
    DemoteRequest
    → LifecycleState
    → Outcome LifecycleError LifecycleState
    → TransitionLedger
    → Outcome LifecycleError LifecycleState × TransitionLedger
demote_from request target (raised error) rows = (raised error, rows)
demote_from request target (ok current) rows =
    settle (demotion_refusal current target) target (demote_row request current target) rows

abbrev demote_to :
    LifecycleState
    → DemoteRequest
    → Outcome LifecycleError LifecycleState
    → TransitionLedger
    → Outcome LifecycleError LifecycleState × TransitionLedger
demote_to default request (raised error) rows = (raised error, rows)
demote_to default request (ok target) rows =
    demote_from request target
      (current_state default request.asset_id request.domain request.candidate rows) rows

unfoldable pub demote :
    LifecycleState
    → DemoteRequest
    → TransitionLedger
    → Outcome LifecycleError LifecycleState × TransitionLedger
demote default request rows =
    if not (is_demotion_trigger request.trigger)
    then (raised (unknown_trigger request.trigger), rows)
    else demote_to default request (validate_lifecycle request.to_state) rows
