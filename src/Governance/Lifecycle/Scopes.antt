-- ===== src/Governance/Lifecycle/Scopes.antt =====
-- The scopes of the lifecycle ledger (src/kalshi_bot/risk/governance.py): a call writes to its own,
-- and reads back what it wrote.
use text.Mathlib.Text.{◌==◌ as str_eq}
use text.Mathlib.TextEquality.{eq_iff}
use kalshi_trading_bot.Prelude.{
  ◌≡◌, ◌≢◌, ◌⊎◌, inl, inr, refl, Option, none, some, ◌∷◌, String, Outcome, ok, raised, is_blank,
  ◌||◌, arith, Bool-cases, if◌then◌else◌,
}
use kalshi_trading_bot.Governance.Lifecycle.States.{
  LifecycleState, disabled, blocked, LifecycleError, is_state, validate_lifecycle,
}
use kalshi_trading_bot.Governance.Lifecycle.{
  TransitionRow, TransitionLedger, PromoteRequest, DemoteRequest, latest, state_of,
  is_demotion_trigger, current_state, promote, promote_to, promote_from, demote, settle,
  demote_from, demote_to,
}

-- The state of a scope under a new row.
pub state_of-cons :
    (default : LifecycleState) (key : String) (row : TransitionRow) (rows : TransitionLedger)
    → state_of default key (row ∷ rows) ≡ (
        if str_eq row.scope_key key
        then validate_lifecycle row.to_state
        else state_of default key rows)
unfolding state_of latest
state_of-cons default key row rows = ground arith

pub state_of-cons_self :
    (default : LifecycleState) (row : TransitionRow) (rows : TransitionLedger)
    → state_of default row.scope_key (row ∷ rows) ≡ validate_lifecycle row.to_state
state_of-cons_self default row rows =
    rw (state_of-cons default row.scope_key row rows, (eq_iff row.scope_key row.scope_key).1 refl)

pub state_of-cons_ne :
    (default : LifecycleState) (key : String) (row : TransitionRow) (rows : TransitionLedger)
    → row.scope_key ≢ key
    → state_of default key (row ∷ rows) ≡ state_of default key rows
state_of-cons_ne default key row rows ne = elim (Bool-cases (str_eq row.scope_key key)) [
  | inl same ↦ absurd (ne ((eq_iff row.scope_key key).0 same))
  | inr other ↦ rw (state_of-cons default key row rows, other)
]

settle-cases :
    (error : Option LifecycleError) (target : LifecycleState) (row : TransitionRow)
    (rows : TransitionLedger)
    → ((settle error target row rows).1 ≡ rows) ⊎ ((settle error target row rows).0 ≡ ok target)
settle-cases none target row rows = inr refl
settle-cases (some e) target row rows = inl refl

promote_from-cases :
    (request : PromoteRequest) (target : LifecycleState)
    (found : Outcome LifecycleError LifecycleState) (rows : TransitionLedger)
    → ((promote_from request target found rows).1 ≡ rows)
      ⊎ ((promote_from request target found rows).0 ≡ ok target)
promote_from-cases request target (raised e) rows = inl refl
promote_from-cases request target (ok current) rows = settle-cases _ _ _ rows

promote_to-cases :
    (default : LifecycleState) (request : PromoteRequest)
    (parsed : Outcome LifecycleError LifecycleState) (rows : TransitionLedger)
    → ((promote_to default request parsed rows).1 ≡ rows)
      ⊎ ((target : LifecycleState) × ((promote_to default request parsed rows).0 ≡ ok target))
promote_to-cases default request (raised e) rows = inl refl
promote_to-cases default request (ok target) rows =
    elim (Bool-cases (is_state target blocked || is_state target disabled)) [
      | inl down ↦ inl (rw down)
      | inr up ↦ elim (Bool-cases (is_blank request.operator)) [
        | inl blank ↦ inl (rw (up, blank))
        | inr named ↦
            elim (promote_from-cases request target
              (current_state default request.asset_id request.domain request.candidate rows) rows) [
                | inl same ↦ inl (rw (up, named) same)
                | inr done ↦ inr (target, rw (up, named) done)
              ]
      ]
    ]

-- A call that does not return a state leaves the ledger as it was.
pub promote-cases :
    (default : LifecycleState) (request : PromoteRequest) (rows : TransitionLedger)
    → ((promote default request rows).1 ≡ rows)
      ⊎ ((target : LifecycleState) × ((promote default request rows).0 ≡ ok target))
unfolding promote
promote-cases default request rows =
    promote_to-cases default request (validate_lifecycle request.to_state) rows

demote_from-cases :
    (request : DemoteRequest) (target : LifecycleState)
    (found : Outcome LifecycleError LifecycleState) (rows : TransitionLedger)
    → ((demote_from request target found rows).1 ≡ rows)
      ⊎ ((demote_from request target found rows).0 ≡ ok target)
demote_from-cases request target (raised e) rows = inl refl
demote_from-cases request target (ok current) rows = settle-cases _ _ _ rows

demote_to-cases :
    (default : LifecycleState) (request : DemoteRequest)
    (parsed : Outcome LifecycleError LifecycleState) (rows : TransitionLedger)
    → ((demote_to default request parsed rows).1 ≡ rows)
      ⊎ ((target : LifecycleState) × ((demote_to default request parsed rows).0 ≡ ok target))
demote_to-cases default request (raised e) rows = inl refl
demote_to-cases default request (ok target) rows = elim (demote_from-cases request target _ rows) [
  | inl same ↦ inl same
  | inr done ↦ inr (target, done)
]

pub demote-cases :
    (default : LifecycleState) (request : DemoteRequest) (rows : TransitionLedger)
    → ((demote default request rows).1 ≡ rows)
      ⊎ ((target : LifecycleState) × ((demote default request rows).0 ≡ ok target))
unfolding demote
demote-cases default request rows = elim (Bool-cases (is_demotion_trigger request.trigger)) [
  | inr unknown ↦ inl (rw unknown)
  | inl known ↦
      rw known (demote_to-cases default request (validate_lifecycle request.to_state) rows)
]
