-- ===== src/Backtest/PromotionGate.antt =====
-- The gate between a validation report and paper trading (src/kalshi_bot/backtest/promotion_gate.py, and the
-- reports that it reads, src/kalshi_bot/backtest/report.py). A share is in millionths, an amount of money
-- is a whole number of a smallest unit.
pub mod Status
pub mod Verdict
mod Tests
use text.Mathlib.Text.{◌==◌ as str_eq}
use kalshi_trading_bot.Prelude.{
  ℕ, Bool, true, false, not, ◌&&◌, ◌||◌, Option, none, some, List, [], ◌∷◌, ◌++◌, map, String,
  length, ltb, leb, if◌then◌else◌, is_empty, all,
}
use kalshi_trading_bot.Prelude.Int.{ℤ, pos, ltb_ℤ, leb_ℤ}

-- What the gate reads of a `FoldReport`: the bounds of the interval.
pub record FoldReport : Type 0 where
  pub expectancy_ci : Option (ℤ × ℤ)

pub record ComponentGateResult : Type 0 where
  pub component_id : String
  pub sample_count : ℕ
  pub min_samples : ℕ
  pub data_ok : Bool
  pub economics_ok : Bool
  pub risk_ok : Bool
  pub reasons : List String

unfoldable pub component_passed : ComponentGateResult → Bool
component_passed component =
    leb component.min_samples component.sample_count
    && component.data_ok
    && component.economics_ok
    && component.risk_ok
    && is_empty component.reasons

-- The reasons of the gate, with the numbers and names that their texts carry.
pub data GateReason : Type 0 where
  not_validation : GateReason
  few_trades few_folds : ℕ → ℕ → GateReason
  low_coverage : ℕ → ℕ → GateReason
  low_expectancy : GateReason
  high_brier : Option ℕ → Option ℕ → GateReason
  no_positive_ci : GateReason
  component_failed component_samples component_data component_economics component_risk :
      String → GateReason
  component_says : String → String → GateReason
  diagnostic_only_requires_captured_brti_validation : GateReason

pub data PromotionStatus : Type 0 where
  not_evaluated passed failed diagnostic_pending_validation : PromotionStatus

-- The fields of an `AggregateReport` that the gate reads or writes.
pub record AggregateReport : Type 0 where
  pub evidence_class : String
  pub folds : List FoldReport
  pub n_trades : ℕ
  pub expectancy : Option ℤ
  pub coverage : ℕ
  pub brier : Option ℕ
  pub manifest_provenance_class : Option String
  pub component_gates : List ComponentGateResult
  pub promotion_status : PromotionStatus
  pub promotion_reasons : List GateReason

pub record PromotionPolicy : Type 0 where
  pub min_trades : ℕ
  pub min_folds : ℕ
  pub min_coverage : ℕ
  pub min_expectancy : ℤ
  pub require_positive_ci : Bool
  pub max_brier : Option ℕ
  pub require_validation_evidence : Bool

-- `PromotionPolicy()`
abbrev pub default_policy : PromotionPolicy
default_policy = record {
  min_trades = 30;
  min_folds = 3;
  min_coverage = 10000;
  min_expectancy = pos 0;
  require_positive_ci = true;
  max_brier = some 250000;
  require_validation_evidence = true;
}

abbrev pub is_text : Option String → String → Bool
is_text none expected = false
is_text (some text) expected = str_eq text expected

unfoldable pub is_diagnostic_only : AggregateReport → Bool
is_diagnostic_only report = not (is_text report.manifest_provenance_class "source_native")

pub record PromotionDecision : Type 0 where
  pub passed : Bool
  pub reasons : List GateReason
  pub diagnostic_only : Bool

-- `if test: reasons.append(reason)`, in front of the reasons that follow.
unfoldable pub reason_if : Bool → GateReason → List GateReason → List GateReason
reason_if test reason rest = if test then reason ∷ rest else rest

-- `expectancy is None or expectancy <= least`
abbrev pub misses : Option ℤ → ℤ → Bool
misses none least = true
misses (some expectancy) least = leb_ℤ expectancy least

-- Both are there, and the score is above the bound.
abbrev pub over : Option ℕ → Option ℕ → Bool
over none _ = false
over (some bound) none = false
over (some bound) (some score) = ltb bound score

-- The intervals that are there.
unfoldable pub intervals : List FoldReport → List (ℤ × ℤ)
intervals [] = []
intervals (fold ∷ folds) =
    let rest = intervals folds in elim fold.expectancy_ci [ none ↦ rest | some ci ↦ ci ∷ rest ]

-- `not cis or any(low <= 0 for low, _ in cis)`
abbrev pub lacks_positive_ci : List (ℤ × ℤ) → Bool
lacks_positive_ci cis = is_empty cis || not (all (λ (ci : ℤ × ℤ). not (leb_ℤ ci.0 (pos 0))) cis)

unfoldable pub component_reasons : ComponentGateResult → List GateReason
component_reasons component =
    let id = component.component_id in
    if component_passed component
    then []
    else component_failed id
      ∷ reason_if (ltb component.sample_count component.min_samples) (component_samples id) (
          reason_if (not component.data_ok) (component_data id) (
            reason_if (not component.economics_ok) (component_economics id) (
              reason_if (not component.risk_ok) (component_risk id)
                (map (component_says id) component.reasons))))

unfoldable pub all_component_reasons : List ComponentGateResult → List GateReason
all_component_reasons [] = []
all_component_reasons (component ∷ components) =
    component_reasons component ++ all_component_reasons components

unfoldable pub gate_reasons : AggregateReport → PromotionPolicy → List GateReason
gate_reasons report policy =
    reason_if
      (policy.require_validation_evidence && not (str_eq report.evidence_class "validation"))
      not_validation
      (reason_if (ltb report.n_trades policy.min_trades)
        (few_trades report.n_trades policy.min_trades)
        (reason_if (ltb (length report.folds) policy.min_folds)
          (few_folds (length report.folds) policy.min_folds)
          (reason_if (ltb report.coverage policy.min_coverage)
            (low_coverage report.coverage policy.min_coverage)
            (reason_if (misses report.expectancy policy.min_expectancy) low_expectancy (
              reason_if (over policy.max_brier report.brier)
                (high_brier report.brier policy.max_brier)
                (reason_if
                  (policy.require_positive_ci && lacks_positive_ci (intervals report.folds))
                  no_positive_ci (all_component_reasons report.component_gates)))))))

unfoldable pub evaluate_promotion : AggregateReport → PromotionPolicy → PromotionDecision
evaluate_promotion report policy =
    let diagnostic = is_diagnostic_only report in
    let reasons = gate_reasons report policy in
    let clears = is_empty reasons in
    record {
      passed = clears && not diagnostic;
      reasons =
          if diagnostic && clears
          then reasons ++ diagnostic_only_requires_captured_brti_validation ∷ []
          else reasons;
      diagnostic_only = diagnostic;
    }

-- `"diagnostic_only_requires_captured_brti_validation" in reasons`
abbrev pub is_pending_reason : GateReason → Bool
is_pending_reason diagnostic_only_requires_captured_brti_validation = true
is_pending_reason _ = false

abbrev pub says_pending : List GateReason → Bool
says_pending reasons = not (all (λ reason. not (is_pending_reason reason)) reasons)

unfoldable pub enforce_paper_promotion : AggregateReport → PromotionPolicy → AggregateReport
enforce_paper_promotion report policy =
    let decision = evaluate_promotion report policy in
    record report {
      promotion_status =
          if decision.diagnostic_only && says_pending decision.reasons
          then diagnostic_pending_validation
          else (if decision.passed then passed else failed);
      promotion_reasons = decision.reasons;
    }
