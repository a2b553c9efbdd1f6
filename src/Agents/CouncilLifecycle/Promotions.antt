-- ===== src/Agents/CouncilLifecycle/Promotions.antt =====
-- When a council profile is promoted, and what its state has cost
-- (src/kalshi_bot/agents/lifecycle.py).
use text.Mathlib.Text.{◌==◌ as str_eq}
use text.Mathlib.TextEquality.{eq_iff}
use kalshi_trading_bot.Prelude.{
  ℕ, ◌+◌, ◌≤◌, ◌≡◌, ◌↔◌, refl, true, false, some, List, [], ◌∷◌, String, arith, ok, raised,
  is_blank, if◌then◌else◌,
}
use kalshi_trading_bot.Agents.CouncilLifecycle.{
  ProfileLifecycle, ProfilePromotionRefused, disabled, order_of, named_state, eligible, promotion,
  demotion, LifecycleRow, current_state, PromoteRequest, DemoteRequest, promote, demote,
  promoted_row,
}

-- What a promotion to a state asks for.
pub record IsPromotable (default : ProfileLifecycle) (request : PromoteRequest)
    (rows : List LifecycleRow) (target : ProfileLifecycle) : Type 0 where
  pub operated : is_blank request.operator ≡ false
  pub same_profile : request.report.profile_id ≡ request.profile_id
  pub same_version : request.report.profile_version ≡ request.profile_version
  pub passed : eligible request.report ≡ true
  pub known : named_state request.to_state ≡ some target
  pub one_step : order_of target ≡ order_of (current_state default request.profile_id rows) + 1

promote-IsPromotable :
    (default : ProfileLifecycle) (request : PromoteRequest) (rows : List LifecycleRow)
    (target : ProfileLifecycle)
    → (promote default request rows).0 ≡ ok target
    → IsPromotable default request rows target
unfolding promote
promote-IsPromotable default request rows target done =
    let report = request.report in
    record {
      operated = ground arith;
      same_profile = ground (arith, eq_iff report.profile_id request.profile_id);
      same_version = ground (arith, eq_iff report.profile_version request.profile_version);
      passed = ground arith;
      known = ground arith;
      one_step = ground arith;
    }

promote-refused :
    (default : ProfileLifecycle) (request : PromoteRequest) (rows : List LifecycleRow)
    (refusal : ProfilePromotionRefused)
    → (promote default request rows).0 ≡ raised refusal
    → (promote default request rows).1 ≡ rows
unfolding promote
promote-refused default request rows refusal h = ground arith

pub promotable-promote :
    (default : ProfileLifecycle) (request : PromoteRequest) (rows : List LifecycleRow)
    (target : ProfileLifecycle)
    → IsPromotable default request rows target
    → promote default request rows ≡ (
      ok target,
      promoted_row request (current_state default request.profile_id rows) target ∷ rows,
    )
unfolding promote
promotable-promote default request rows target p =
    let report = request.report in
    ground (
      arith,
      eq_iff report.profile_id request.profile_id,
      eq_iff report.profile_version request.profile_version,
      p.operated,
      p.same_profile,
      p.same_version,
      p.passed,
      p.known,
      p.one_step,
    )

-- A promotion returns a state exactly when an operator is named, the report is about this profile
-- and version and is eligible, and the state that is asked for is one stage above the current one; it
-- then adds one row for the step, and a promotion that raises leaves the ledger as it is.
pub promote_iff :
    (default : ProfileLifecycle) (request : PromoteRequest) (rows : List LifecycleRow)
    (target : ProfileLifecycle)
    → (((promote default request rows).0 ≡ ok target) ↔ IsPromotable default request rows target)
      × (IsPromotable default request rows target
          → (promote default request rows).1
            ≡ promoted_row request (current_state default request.profile_id rows) target ∷ rows)
      × ((refusal : ProfilePromotionRefused)
          → (promote default request rows).0 ≡ raised refusal
          → (promote default request rows).1 ≡ rows)
promote_iff default request rows target = (
  (
    promote-IsPromotable default request rows target,
    (λ p. rw (promotable-promote default request rows target p) refl),
  ),
  (λ p. rw (promotable-promote default request rows target p) refl),
  promote-refused default request rows,
)

-- The promotions of a profile.
abbrev pub promotions : String → List LifecycleRow → ℕ
promotions profile_id [] = 0
promotions profile_id (row ∷ rows) = elim row.direction [
  | promotion ↦ (if str_eq row.profile_id profile_id then 1 else 0) + promotions profile_id rows
  | demotion ↦ promotions profile_id rows
]

pub data Call : Type 0 where
  promotes : PromoteRequest → Call
  demotes : DemoteRequest → Call

unfoldable pub after : ProfileLifecycle → Call → List LifecycleRow → List LifecycleRow
after default (promotes request) rows = (promote default request rows).1
after default (demotes request) rows = (demote default request rows).1

unfoldable pub after_all : ProfileLifecycle → List Call → List LifecycleRow → List LifecycleRow
after_all default [] rows = rows
after_all default (call ∷ calls) rows = after_all default calls (after default call rows)

-- The stage of a profile is at most the number of its promotions.
abbrev IsPaid : String → List LifecycleRow → Type 0
IsPaid profile_id rows =
    order_of (current_state disabled profile_id rows) ≤ promotions profile_id rows

promote-IsPaid :
    (profile_id : String) (request : PromoteRequest) (rows : List LifecycleRow)
    → IsPaid profile_id rows
    → IsPaid profile_id (promote disabled request rows).1
unfolding promote current_state
promote-IsPaid profile_id request rows paid = ground (arith, eq_iff request.profile_id profile_id)

demote-IsPaid :
    (profile_id : String) (request : DemoteRequest) (rows : List LifecycleRow)
    → IsPaid profile_id rows
    → IsPaid profile_id (demote disabled request rows).1
unfolding demote current_state
demote-IsPaid profile_id request rows paid = ground (arith, eq_iff request.profile_id profile_id)

after-IsPaid :
    (profile_id : String) (call : Call) (rows : List LifecycleRow)
    → IsPaid profile_id rows
    → IsPaid profile_id (after disabled call rows)
unfolding after
after-IsPaid profile_id (promotes request) rows paid = promote-IsPaid profile_id request rows paid
after-IsPaid profile_id (demotes request) rows paid = demote-IsPaid profile_id request rows paid

after_all-IsPaid :
    (profile_id : String) (calls : List Call) (rows : List LifecycleRow)
    → IsPaid profile_id rows
    → IsPaid profile_id (after_all disabled calls rows)
unfolding after_all
after_all-IsPaid profile_id [] rows paid = paid
after_all-IsPaid profile_id (call ∷ calls) rows paid =
    after_all-IsPaid profile_id calls (after disabled call rows)
      (after-IsPaid profile_id call rows paid)

-- In a store that starts empty, with the default state `disabled`, the stage of a profile after any
-- promotions and demotions of any profiles is at most the number of promotions of that profile.
pub stage_is_earned :
    (profile_id : String) (calls : List Call)
    → order_of (current_state disabled profile_id (after_all disabled calls []))
      ≤ promotions profile_id (after_all disabled calls [])
unfolding current_state
stage_is_earned profile_id calls = after_all-IsPaid profile_id calls [] (omega arith)
