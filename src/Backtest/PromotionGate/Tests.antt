-- ===== src/Backtest/PromotionGate/Tests.antt =====
-- The gate on a concrete report, one of whose folds has no interval.
use kalshi_trading_bot.Prelude.{[], ◌∷◌, none, some, ◌≡◌, ◌≢◌, ◌↔◌, refl}
use kalshi_trading_bot.Prelude.Int.{pos}
use kalshi_trading_bot.Backtest.PromotionGate.{
  AggregateReport, FoldReport, default_policy, enforce_paper_promotion, intervals, not_evaluated,
  passed, failed, diagnostic_pending_validation, gate_reasons, evaluate_promotion,
  is_diagnostic_only, all_component_reasons, reason_if,
}
use kalshi_trading_bot.Backtest.PromotionGate.Verdict.{Clears, promotion_status_iff}

abbrev fold : FoldReport
fold = record { expectancy_ci = some (pos 1, pos 5) }

abbrev blank_fold : FoldReport
blank_fold = record { expectancy_ci = none }

abbrev report : AggregateReport
report = record {
  evidence_class = "validation";
  folds = fold ∷ blank_fold ∷ blank_fold ∷ [];
  n_trades = 30;
  expectancy = some (pos 2);
  coverage = 20000;
  brier = some 200000;
  manifest_provenance_class = some "source_native";
  component_gates = [];
  promotion_status = not_evaluated;
  promotion_reasons = [];
}

-- Folds without an interval do not keep a report from passing.
passes_on_one_interval : (enforce_paper_promotion report default_policy).promotion_status ≡ passed
unfolding enforce_paper_promotion evaluate_promotion is_diagnostic_only gate_reasons intervals
    all_component_reasons reason_if
passes_on_one_interval = refl

promotion_status_iff_example :
    let status = (enforce_paper_promotion report default_policy).promotion_status in
    ((status ≡ passed)
      ↔ (Clears report default_policy × (report.manifest_provenance_class ≡ some "source_native")))
    × ((status ≡ diagnostic_pending_validation) ↔ (
        Clears report default_policy × (report.manifest_provenance_class ≢ some "source_native")))
    × (¬ Clears report default_policy → status ≡ failed)
promotion_status_iff_example = promotion_status_iff report default_policy
