-- ===== src/Backtest/PromotionGate/Status.antt =====
-- The status that `enforce_paper_promotion` (src/kalshi_bot/backtest/promotion_gate.py) writes.
use kalshi_trading_bot.Prelude.{
  ◌≡◌, ◌↔◌, refl, Bool, true, false, not, List, [], ◌∷◌, ◌++◌, map, String, arith, if_both,
  is_empty, all,
}
use kalshi_trading_bot.Backtest.PromotionGate.{
  component_says, AggregateReport, PromotionPolicy, GateReason, ComponentGateResult,
  component_passed, component_reasons, all_component_reasons, gate_reasons, evaluate_promotion,
  enforce_paper_promotion, is_diagnostic_only, reason_if, passed, failed,
  diagnostic_pending_validation, is_pending_reason,
}

-- No reason of a policy is the one that a diagnostic run gets.
abbrev is_plain : List GateReason → Bool
is_plain reasons = all (λ reason. not (is_pending_reason reason)) reasons

reason_if-is_plain :
    (test : Bool) (reason : GateReason) (rest : List GateReason)
    → is_pending_reason reason ≡ false
    → is_plain rest ≡ true
    → is_plain (reason_if test reason rest) ≡ true
unfolding reason_if
reason_if-is_plain test reason rest plain h = ground arith

append-is_plain :
    (xs ys : List GateReason) → is_plain xs ≡ true → is_plain ys ≡ true → is_plain (xs ++ ys) ≡ true
append-is_plain [] ys hx hy = hy
append-is_plain (x ∷ xs) ys hx hy = ground (arith, append-is_plain xs ys)

says-is_plain :
    (id : String) (texts : List String) → is_plain (map (component_says id) texts) ≡ true
says-is_plain id [] = refl
says-is_plain id (text ∷ texts) = says-is_plain id texts

component_reasons-is_plain :
    (component : ComponentGateResult) → is_plain (component_reasons component) ≡ true
unfolding component_reasons
component_reasons-is_plain component =
    if_both (λ rs. is_plain rs ≡ true) (component_passed component) [] _ (λ _. refl)
      (λ _. reason_if-is_plain _ _ _ refl (
        reason_if-is_plain _ _ _ refl (
          reason_if-is_plain _ _ _ refl (
            reason_if-is_plain _ _ _ refl
              (says-is_plain component.component_id component.reasons)))))

all_component_reasons-is_plain :
    (components : List ComponentGateResult) → is_plain (all_component_reasons components) ≡ true
unfolding all_component_reasons
all_component_reasons-is_plain [] = refl
all_component_reasons-is_plain (component ∷ components) =
    append-is_plain (component_reasons component) (all_component_reasons components)
      (component_reasons-is_plain component) (all_component_reasons-is_plain components)

gate_reasons-is_plain :
    (report : AggregateReport) (policy : PromotionPolicy)
    → is_plain (gate_reasons report policy) ≡ true
unfolding gate_reasons
gate_reasons-is_plain report policy = reason_if-is_plain _ _ _ refl (
    reason_if-is_plain _ _ _ refl (
      reason_if-is_plain _ _ _ refl (
        reason_if-is_plain _ _ _ refl (
          reason_if-is_plain _ _ _ refl (
            reason_if-is_plain _ _ _ refl (
              reason_if-is_plain _ _ _ refl
                (all_component_reasons-is_plain report.component_gates)))))))

pub status_cases :
    (report : AggregateReport) (policy : PromotionPolicy)
    → let status = (enforce_paper_promotion report policy).promotion_status in
      let clear = is_empty (gate_reasons report policy) in
      ((status ≡ passed) ↔ ((clear ≡ true) × (is_diagnostic_only report ≡ false)))
      × ((status ≡ diagnostic_pending_validation)
          ↔ ((clear ≡ true) × (is_diagnostic_only report ≡ true)))
      × (clear ≡ false → status ≡ failed)
unfolding enforce_paper_promotion evaluate_promotion
status_cases report policy =
    let plain = gate_reasons-is_plain report policy in
    ((ground arith, ground arith), (ground arith, ground arith), (λ unclear. ground arith))
