-- ===== src/Agents/Coordinator/Decision.antt =====
-- What the master's answer comes to: `_decision_from_master` and `hold_decision` of
-- src/kalshi_bot/agents/coordinator.py.
use Prim.Native.String.{◌++◌ as ◌+++◌}
use text.Mathlib.Text.{◌==◌ as str_eq}
use kalshi_trading_bot.Prelude.{
  ℕ, Bool, false, not, ◌&&◌, Option, none, some, List, [], ◌∷◌, ◌++◌, String, ltb, if◌then◌else◌,
}
use kalshi_trading_bot.Agents.Boundary.{hold_off}
use kalshi_trading_bot.Agents.Contracts.{CouncilPolicy, CouncilDecision, is_take, is_sized_right}
use kalshi_trading_bot.Agents.Validation.{error_if, validate_master_decision}
use kalshi_trading_bot.Agents.Coordinator.Calls.{RoleAttempt, or_text}

-- What the coordinator reads of a candidate.
pub record CouncilCandidate : Type 0 where
  pub candidate_id : String
  pub domain : String
  pub proposed_action : String
  pub proposed_price : Option ℕ
  pub proposed_size : Option ℕ

unfoldable pub hold_decision : String → CouncilPolicy → String → CouncilDecision
hold_decision run_id policy reason = record {
  decision_id = run_id +++ "-decision-hold";
  council_run_id = run_id;
  outcome = hold_off;
  selected_action = none;
  max_entry_price = none;
  max_size = none;
  summary = reason;
  supporting_verdict_ids = [];
  dissenting_verdict_ids = [];
  policy = policy;
}

-- The second is there, and is above the first.
abbrev pub loosens : Option ℕ → Option ℕ → Bool
loosens none limit = false
loosens (some proposed) none = false
loosens (some proposed) (some limit) = ltb proposed limit

abbrev pub is_action : Option String → String → Bool
is_action none action = false
is_action (some selected) action = str_eq selected action

-- `_decision_from_master`: what is wrong with a decision.
unfoldable pub decision_errors :
    CouncilDecision → CouncilCandidate → String → List String → List String
decision_errors decision candidate run_id verdict_ids =
    validate_master_decision decision verdict_ids
    ++ error_if (not (str_eq decision.council_run_id run_id)) "council_run_mismatch"
    ++ error_if
        (is_take decision.outcome
          && not (is_action decision.selected_action candidate.proposed_action))
        "master_changed_candidate_action"
    ++ error_if (loosens candidate.proposed_price decision.max_entry_price) "master_loosened_price"
    ++ error_if (loosens candidate.proposed_size decision.max_size) "master_increased_size"

abbrev pub semicolons_after : List String → String
semicolons_after [] = ""
semicolons_after (text ∷ texts) = ";" +++ text +++ semicolons_after texts

abbrev pub accept : List String → CouncilDecision → String → CouncilPolicy → CouncilDecision
accept [] decision run_id policy = decision
accept (error ∷ errors) decision run_id policy =
    hold_decision run_id policy (error +++ semicolons_after errors)

-- A parsed decision is one that the validator of its class accepts.
abbrev pub decide :
    Option CouncilDecision
    → CouncilCandidate
    → CouncilPolicy
    → String
    → List String
    → CouncilDecision
decide none candidate policy run_id verdict_ids =
    hold_decision run_id policy "master_schema_invalid"
decide (some decision) candidate policy run_id verdict_ids =
    if is_sized_right decision
    then accept (decision_errors decision candidate run_id verdict_ids) decision run_id policy
    else hold_decision run_id policy "master_schema_invalid"

abbrev pub decide_raw :
    (String → Option CouncilDecision)
    → Option String
    → RoleAttempt
    → CouncilCandidate
    → CouncilPolicy
    → String
    → List String
    → CouncilDecision
decide_raw read_decision none attempt candidate policy run_id verdict_ids =
    hold_decision run_id policy (or_text attempt.error "master_call_failed")
decide_raw read_decision (some raw) attempt candidate policy run_id verdict_ids =
    if str_eq attempt.status "completed"
    then decide (read_decision raw) candidate policy run_id verdict_ids
    else hold_decision run_id policy (or_text attempt.error "master_call_failed")

-- `read_decision` reads the fields of a decision, `none` where they do not fit.
unfoldable pub decision_from_master :
    (String → Option CouncilDecision)
    → RoleAttempt
    → CouncilCandidate
    → CouncilPolicy
    → String
    → List String
    → CouncilDecision
decision_from_master read_decision attempt candidate policy run_id verdict_ids =
    decide_raw read_decision attempt.raw_output attempt candidate policy run_id verdict_ids
