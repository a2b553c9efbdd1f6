-- ===== src/Backtest/PromotionGate/Verdict.antt =====
-- What the gate of src/kalshi_bot/backtest/promotion_gate.py asks of a report.
use text.Mathlib.TextEquality.{eq_iff}
use kalshi_trading_bot.Prelude.{
  ℕ, ◌≤◌, ◌≡◌, ◌↔◌, ◌≢◌, refl, Bool, true, false, not, ◌&&◌, Option, none, some, List, [], ◌∷◌,
  String, length, arith, inl, inr, Bool-cases, is_empty, all, All,
}
use kalshi_trading_bot.Prelude.Int.{ℤ, pos, ◌<ℤ◌, leb_ℤ}
use kalshi_trading_bot.Backtest.PromotionGate.{
  AggregateReport, PromotionPolicy, GateReason, ComponentGateResult, component_passed,
  component_reasons, all_component_reasons, gate_reasons, enforce_paper_promotion,
  is_diagnostic_only, reason_if, misses, over, intervals, lacks_positive_ci, passed, failed,
  diagnostic_pending_validation, is_text,
}
use kalshi_trading_bot.Backtest.PromotionGate.Status.{status_cases}

-- The numbers of a report clear a policy.
pub record Clears (report : AggregateReport) (policy : PromotionPolicy) : Type 0 where
  pub evidence : policy.require_validation_evidence ≡ true → report.evidence_class ≡ "validation"
  pub trades : policy.min_trades ≤ report.n_trades
  pub fold_count : policy.min_folds ≤ length report.folds
  pub covered : policy.min_coverage ≤ report.coverage
  pub profitable : (e : ℤ) × (report.expectancy ≡ some e) × (policy.min_expectancy <ℤ e)
  pub calibrated :
      (bound score : ℕ) → policy.max_brier ≡ some bound → report.brier ≡ some score → score ≤ bound
  pub confident :
      policy.require_positive_ci ≡ true
      → (is_empty (intervals report.folds) ≡ false)
        × All (λ (ci : ℤ × ℤ). pos 0 <ℤ ci.0) (intervals report.folds)
  pub components : All (λ component. component_passed component ≡ true) report.component_gates

all-positive :
    (cis : List (ℤ × ℤ))
    → (all (λ (ci : ℤ × ℤ). not (leb_ℤ ci.0 (pos 0))) cis ≡ true)
      ↔ All (λ (ci : ℤ × ℤ). pos 0 <ℤ ci.0) cis
all-positive [] = ((λ _. tt), (λ _. refl))
all-positive (ci ∷ cis) = let (from, to) = all-positive cis in (ground arith, ground arith)

components-empty :
    (components : List ComponentGateResult)
    → (is_empty (all_component_reasons components) ≡ true)
      ↔ All (λ component. component_passed component ≡ true) components
unfolding all_component_reasons component_reasons reason_if
components-empty [] = ((λ _. tt), (λ _. refl))
components-empty (component ∷ components) =
    let (from, to) = components-empty components in (ground arith, ground arith)

misses-false :
    (expectancy : Option ℤ) (least : ℤ)
    → misses expectancy least ≡ false
    → (e : ℤ) × (expectancy ≡ some e) × (least <ℤ e)
misses-false none least h = cc
misses-false (some e) least h = (e, refl, ground arith)

over-false :
    (max_brier brier : Option ℕ) (bound score : ℕ)
    → over max_brier brier ≡ false
    → max_brier ≡ some bound
    → brier ≡ some score
    → score ≤ bound
over-false max_brier brier bound score h b s = ground arith

within-over :
    (max_brier brier : Option ℕ)
    → ((bound score : ℕ) → max_brier ≡ some bound → brier ≡ some score → score ≤ bound)
    → over max_brier brier ≡ false
within-over none brier h = refl
within-over (some bound) none h = refl
within-over (some bound) (some score) h = ground (arith, h bound score refl refl)

ci-false :
    (required : Bool) (cis : List (ℤ × ℤ))
    → (required && lacks_positive_ci cis) ≡ false
    → required ≡ true
    → (is_empty cis ≡ false) × All (λ (ci : ℤ × ℤ). pos 0 <ℤ ci.0) cis
ci-false required cis h needed =
    let (from, to) = all-positive cis in (ground arith, from (ground arith))

none_added :
    {test : Bool} (reason : GateReason) (rest : List GateReason)
    → is_empty (reason_if test reason rest) ≡ true
    → (test ≡ false) × (is_empty rest ≡ true)
unfolding reason_if
none_added reason rest h = (ground arith, ground arith)

adds_none :
    {test : Bool} (reason : GateReason) (rest : List GateReason)
    → test ≡ false
    → is_empty rest ≡ true
    → is_empty (reason_if test reason rest) ≡ true
unfolding reason_if
adds_none reason rest no_test empty = ground arith

gate_reasons-Clears :
    (report : AggregateReport) (policy : PromotionPolicy)
    → is_empty (gate_reasons report policy) ≡ true
    → Clears report policy
unfolding gate_reasons
gate_reasons-Clears report policy clear =
    let (evidence, clear) = none_added _ _ clear in
    let (trades, clear) = none_added _ _ clear in
    let (fold_count, clear) = none_added _ _ clear in
    let (coverage, clear) = none_added _ _ clear in
    let (expectancy, clear) = none_added _ _ clear in
    let (brier, clear) = none_added _ _ clear in
    let (ci, clear) = none_added _ _ clear in
    record {
      evidence = ground (arith, eq_iff report.evidence_class "validation");
      trades = ground arith;
      fold_count = ground arith;
      covered = ground arith;
      profitable = misses-false report.expectancy policy.min_expectancy expectancy;
      calibrated =
          λ bound score b s. over-false policy.max_brier report.brier bound score brier b s;
      confident =
          λ required. ci-false policy.require_positive_ci (intervals report.folds) ci required;
      components = (components-empty report.component_gates).0 clear;
    }

Clears-gate_reasons :
    (report : AggregateReport) (policy : PromotionPolicy)
    → Clears report policy
    → is_empty (gate_reasons report policy) ≡ true
unfolding gate_reasons
Clears-gate_reasons report policy c =
    adds_none _ _ (ground (arith, eq_iff report.evidence_class "validation", c.evidence)) (
      adds_none _ _ (ground (arith, c.trades)) (
        adds_none _ _ (ground (arith, c.fold_count)) (
          adds_none _ _ (ground (arith, c.covered)) (
            adds_none _ _ (ground (arith, c.profitable)) (
              adds_none _ _ (within-over policy.max_brier report.brier c.calibrated) (
                adds_none _ _ (ground (arith, all-positive (intervals report.folds), c.confident))
                  ((components-empty report.component_gates).1 c.components)))))))

native_iff :
    (provenance : Option String)
    → (not (is_text provenance "source_native") ≡ false) ↔ (provenance ≡ some "source_native")
native_iff none = (ground arith, ground arith)
native_iff (some text) =
    (ground (arith, eq_iff text "source_native"), ground (arith, eq_iff text "source_native"))

true_of : {b : Bool} → ¬ (b ≡ false) → b ≡ true
true_of {b} h = elim (Bool-cases b) [ inl e ↦ e | inr e ↦ absurd (h e) ]

false_of : {b : Bool} → ¬ (b ≡ true) → b ≡ false
false_of {b} h = elim (Bool-cases b) [ inl e ↦ absurd (h e) | inr e ↦ e ]

-- The gate passes a report exactly when it is about source-native data, and clears the policy. A
-- report that clears the policy on any other data is `diagnostic_pending_validation`, and one
-- that does not clear it is `failed`, on any data.
pub promotion_status_iff :
    (report : AggregateReport) (policy : PromotionPolicy)
    → let status = (enforce_paper_promotion report policy).promotion_status in
      ((status ≡ passed)
        ↔ (Clears report policy × (report.manifest_provenance_class ≡ some "source_native")))
      × ((status ≡ diagnostic_pending_validation)
          ↔ (Clears report policy × (report.manifest_provenance_class ≢ some "source_native")))
      × (¬ Clears report policy → status ≡ failed)
unfolding is_diagnostic_only
promotion_status_iff report policy =
    let (pass, pending, rest) = status_cases report policy in
    let native = native_iff report.manifest_provenance_class in
    let clear = gate_reasons-Clears report policy in
    let clears = Clears-gate_reasons report policy in
    (
      (
        (λ h. let (c, d) = pass.0 h in (clear c, native.0 d)),
        (λ (c, n). pass.1 (clears c, native.1 n)),
      ),
      (
        (λ h. let (c, d) = pending.0 h in (clear c, λ n. let e = native.1 n in cc)),
        (λ (c, n). pending.1 (clears c, true_of (λ d. n (native.0 d)))),
      ),
      (λ unclear. rest (false_of (λ c. unclear (clear c)))),
    )
