-- ===== src/Agents/Validation.antt =====
-- Validation of the council's artifacts (src/kalshi_bot/agents/validation.py).
use Prim.Native.String.{◌++◌ as ◌+++◌, compare}
use Prim.Native.Nat.{Ordering}
use text.Mathlib.Text.{◌==◌ as str_eq}
use kalshi_trading_bot.Prelude.{
  Bool, not, ◌&&◌, ◌||◌, List, [], ◌∷◌, ◌++◌, String, if◌then◌else◌, is_empty, contains, is_some,
  select,
}
use kalshi_trading_bot.Agents.Contracts.{
  AgentRole, researcher, rules_settlement, portfolio_risk, is_role, EvidenceClaim, AgentVerdict,
  CouncilDecision, RoleConfig, is_invalid, is_take, can_synthesize, joined, distinct,
}

-- `errors.append(error)` under a test.
unfoldable pub error_if : Bool → String → List String
error_if test error = if test then error ∷ [] else []

abbrev pub insert : String → List String → List String
insert text [] = text ∷ []
insert text (other ∷ texts) =
    let rest = insert text texts in
    elim (compare text other) [ Ordering.gt ↦ other ∷ rest | _ ↦ text ∷ other ∷ texts ]

unfoldable pub sorted : List String → List String
sorted [] = []
sorted (text ∷ texts) = insert text (sorted texts)

-- `set(xs).difference(known)`
unfoldable pub difference : List String → List String → List String
difference xs known = select (λ x. not (contains known x)) (distinct xs)

abbrev pub claim_error : List String → EvidenceClaim → List String
claim_error evidence_ids claim =
    let unknown = difference claim.evidence_ids evidence_ids in
    error_if (not (is_empty unknown)) ("unknown_evidence:" +++ joined (sorted unknown))

abbrev pub claim_errors : List String → List EvidenceClaim → List String
claim_errors evidence_ids [] = []
claim_errors evidence_ids (claim ∷ claims) =
    claim_error evidence_ids claim ++ claim_errors evidence_ids claims

abbrev pub is_passive : AgentRole → Bool
is_passive role =
    is_role role researcher || is_role role rules_settlement || is_role role portfolio_risk

-- A bundle by its hash and the ids of its items.
unfoldable pub validate_verdict_artifact :
    AgentVerdict → String → List String → RoleConfig → List String
validate_verdict_artifact verdict bundle_hash evidence_ids config = distinct (
    error_if (not (is_role verdict.role config.role)) "role_mismatch"
    ++ error_if (not (str_eq verdict.evidence_bundle_hash bundle_hash)) "evidence_bundle_mismatch"
    ++ claim_errors evidence_ids (verdict.claims ++ verdict.counterevidence)
    ++ error_if (is_passive verdict.role && is_some verdict.proposed_action)
        "role_cannot_propose_action"
    ++ error_if (is_some verdict.price_ceiling && not config.allow_price_ceiling)
        "role_cannot_propose_price_ceiling"
    ++ error_if (is_some verdict.size_ceiling && not config.allow_size_ceiling)
        "role_cannot_propose_size_ceiling"
    ++ error_if (is_invalid verdict.parse_status) "invalid_parse_status")

abbrev pub intersection : List String → List String → List String
intersection xs ys = select (λ x. contains ys x) xs

unfoldable pub validate_master_decision : CouncilDecision → List String → List String
validate_master_decision decision known =
    let supporting = decision.supporting_verdict_ids in
    let dissenting = decision.dissenting_verdict_ids in
    distinct (
      error_if (not (is_empty (difference supporting known))) "unknown_supporting_verdict"
      ++ error_if (not (is_empty (difference dissenting known))) "unknown_dissenting_verdict"
      ++ error_if (not (is_empty (intersection supporting dissenting)))
          "verdict_cannot_support_and_dissent"
      ++ error_if (is_take decision.outcome && not (can_synthesize decision.policy))
          "policy_does_not_allow_take")
