-- ===== src/Governance/Lifecycle/Records.antt =====
-- The rows, the evidence and the named gates and triggers of the lifecycle ledger
-- (src/kalshi_bot/risk/governance.py, `LifecycleTransitionRecord` of src/kalshi_bot/storage/models.py).
use Prim.Native.String.{◌++◌}
use text.Mathlib.Text.{◌==◌ as str_eq}
use kalshi_trading_bot.Prelude.{
  ℕ, Bool, false, not, Option, List, [], ◌∷◌, String, contains, is_empty_text, if◌then◌else◌,
}

pub data Direction : Type 0 where
  promotion demotion : Direction

-- A row's reason: the caller's text, or the f-string of `promote`, by its argument
-- `required_gates`.
pub data TransitionReason : Type 0 where
  given : String → TransitionReason
  gates_passed : List String → TransitionReason

-- `LifecycleTransitionRecord`, without its primary key. A state column is its text, as stored.
pub record TransitionRow : Type 0 where
  pub scope_key : String
  pub asset_id : String
  pub domain : String
  pub candidate : String
  pub direction : Direction
  pub from_state : String
  pub to_state : String
  pub trigger : String
  pub reason : TransitionReason
  pub created_at : ℕ
  pub operator : Option String
  pub report_id : Option String
  pub data_manifest_hash : Option String
  pub model_fingerprint : Option String
  pub risk_policy_version : Option String
  pub gate_results : Option (List (String × Bool))

-- The table, newest row first.
abbrev pub TransitionLedger : Type 0
TransitionLedger = List TransitionRow

-- `PromotionEvidence`
pub record PromotionEvidence : Type 0 where
  pub report_id : String
  pub data_manifest_hash : String
  pub model_fingerprint : String
  pub risk_policy_version : String
  pub gate_results : List (String × Bool)

-- `self.gate_results.get(g, False)`
abbrev pub gate_passed : List (String × Bool) → String → Bool
gate_passed [] gate = false
gate_passed ((name, passed) ∷ results) gate =
    if str_eq name gate then passed else gate_passed results gate

abbrev pub failing : List (String × Bool) → List String → List String
failing results [] = []
failing results (gate ∷ gates) =
    let rest = failing results gates in if not (gate_passed results gate) then gate ∷ rest else rest

unfoldable pub failing_gates : PromotionEvidence → List String → List String
failing_gates evidence required = failing evidence.gate_results required

-- The names of the fingerprints that are empty.
unfoldable pub missing_fingerprints : PromotionEvidence → List String
missing_fingerprints evidence =
    let add = λ (name value : String) (rest : List String).
      if is_empty_text value then name ∷ rest else rest in
    add "report_id" evidence.report_id (
      add "data_manifest_hash" evidence.data_manifest_hash (
        add "model_fingerprint" evidence.model_fingerprint
          (add "risk_policy_version" evidence.risk_policy_version [])))

-- `PROMOTION_GATES`
abbrev pub promotion_gates : List String
promotion_gates =
    "data_coverage" ∷ "out_of_sample_validation" ∷ "execution_assumptions" ∷ "shadow_period"
    ∷ "paper_admission_report" ∷ "risk_policy" ∷ []

-- `DEMOTION_TRIGGERS`
abbrev pub demotion_triggers : List String
demotion_triggers =
    "poor_coverage" ∷ "paper_backtest_divergence" ∷ "liquidity_deterioration"
    ∷ "data_integrity_failure" ∷ "source_alignment_failure" ∷ "emergency_halt" ∷ "operator_request"
    ∷ []

-- `trigger in DEMOTION_TRIGGERS`
unfoldable pub is_demotion_trigger : String → Bool
is_demotion_trigger = contains demotion_triggers

unfoldable pub scope_key : String → String → String → String
scope_key asset domain candidate = asset ++ (":" ++ (domain ++ (":" ++ candidate)))
