-- ===== src/Governance/Lifecycle/Demotion.antt =====
-- What `demote` of src/kalshi_bot/risk/governance.py demands before it adds a row.
use kalshi_trading_bot.Prelude.{
  true, ◌≡◌, inl, inr, refl, none, ◌∷◌, Outcome, ok, raised, Option-cases, ◌||◌, arith, Bool-cases,
  ap, ◌∙◌, ◌↔◌, sym,
}
use kalshi_trading_bot.Prelude.Int.{ltb_ℤ}
use kalshi_trading_bot.Governance.Lifecycle.States.{
  LifecycleState, disabled, observe, backtest, shadow, paper, blocked, LifecycleError, is_state,
  validate_lifecycle, ladder_rank,
}
use kalshi_trading_bot.Governance.Lifecycle.{
  TransitionLedger, DemoteRequest, is_demotion_trigger, current_state, demotion_refusal, demote_row,
  demote, demote_from, demote_to,
}

-- What stands behind a demotion that was made: a known trigger, and a target that is `blocked` or
-- lies below the current state, unless that is `blocked` itself.
pub record IsTriggered (request : DemoteRequest) (current target : LifecycleState) : Type 0 where
  pub known : is_demotion_trigger request.trigger ≡ true
  pub backward :
      is_state target blocked
        || ltb_ℤ (ladder_rank target) (ladder_rank current)
        || is_state current blocked
      ≡ true

demotion_refusal-none :
    (current target : LifecycleState)
    → demotion_refusal current target ≡ none
    → is_state target blocked
        || ltb_ℤ (ladder_rank target) (ladder_rank current)
        || is_state current blocked
      ≡ true
unfolding demotion_refusal
demotion_refusal-none disabled target h = ground arith
demotion_refusal-none observe target h = ground arith
demotion_refusal-none backtest target h = ground arith
demotion_refusal-none shadow target h = ground arith
demotion_refusal-none paper target h = ground arith
demotion_refusal-none blocked target h = ground arith

demote_from-ok :
    (request : DemoteRequest) (target : LifecycleState)
    (found : Outcome LifecycleError LifecycleState) (rows : TransitionLedger)
    {result : LifecycleState}
    → (demote_from request target found rows).0 ≡ ok result
    → (current : LifecycleState) × (found ≡ ok current)
      × (target ≡ result)
      × (demotion_refusal current target ≡ none)
      × ((demote_from request target found rows).1 ≡ demote_row request current target ∷ rows)
demote_from-ok request target (raised error) rows h = cc
demote_from-ok request target (ok current) rows h =
    elim (Option-cases (demotion_refusal current target)) [
      | inl passed ↦ (current, refl, ground arith, passed, rw passed)
      | inr (error, e) ↦ absurd (ground arith)
    ]

demote_to-ok :
    (default : LifecycleState) (request : DemoteRequest)
    (parsed : Outcome LifecycleError LifecycleState) (rows : TransitionLedger)
    {result : LifecycleState}
    → (demote_to default request parsed rows).0 ≡ ok result
    → (current : LifecycleState) × (parsed ≡ ok result)
      × (current_state default request.asset_id request.domain request.candidate rows ≡ ok current)
      × (demotion_refusal current result ≡ none)
      × ((demote_to default request parsed rows).1 ≡ demote_row request current result ∷ rows)
demote_to-ok default request (raised error) rows h = cc
demote_to-ok default request (ok target) rows {result} h =
    let found = current_state default request.asset_id request.domain request.candidate rows in
    let (current, read, same, passed, row) = demote_from-ok request target found rows h in
    (
      current,
      ap ok same,
      read,
      rw (← same) passed,
      row ∙ ap (λ t. demote_row request current t ∷ rows) same,
    )

-- A demotion that succeeds has read a state from the ledger, names a known trigger, and goes to
-- `blocked`, or to a state below the current one, or to any state if the current one is
-- `blocked`; and it adds one row on top of the ledger.
pub demote-IsTriggered :
    (default : LifecycleState) (request : DemoteRequest) (rows : TransitionLedger)
    {target : LifecycleState}
    → (demote default request rows).0 ≡ ok target
    → (current : LifecycleState) × (validate_lifecycle request.to_state ≡ ok target)
      × (current_state default request.asset_id request.domain request.candidate rows ≡ ok current)
      × IsTriggered request current target
      × ((demote default request rows).1 ≡ demote_row request current target ∷ rows)
unfolding demote
demote-IsTriggered default request rows {target} h =
    elim (Bool-cases (is_demotion_trigger request.trigger)) [
      | inr unknown ↦ absurd (ground arith)
      | inl known ↦
          let (current, parsed, read, passed, row) =
            demote_to-ok default request (validate_lifecycle request.to_state) rows
              {result = target} (rw known at h) in
          (
            current,
            parsed,
            read,
            record { known = known; backward = demotion_refusal-none current target passed },
            rw known row,
          )
    ]

triggered_passes :
    (current target : LifecycleState)
    → is_state target blocked
        || ltb_ℤ (ladder_rank target) (ladder_rank current)
        || is_state current blocked
      ≡ true
    → demotion_refusal current target ≡ none
unfolding demotion_refusal
triggered_passes disabled target h = ground arith
triggered_passes observe target h = ground arith
triggered_passes backtest target h = ground arith
triggered_passes shadow target h = ground arith
triggered_passes paper target h = ground arith
triggered_passes blocked target h = ground arith

-- A demotion that is triggered goes through: it returns the target and adds its row.
pub demote-triggered :
    (default : LifecycleState) (request : DemoteRequest) (rows : TransitionLedger)
    (current target : LifecycleState)
    → validate_lifecycle request.to_state ≡ ok target
    → current_state default request.asset_id request.domain request.candidate rows ≡ ok current
    → IsTriggered request current target
    → demote default request rows ≡ (ok target, demote_row request current target ∷ rows)
unfolding demote
demote-triggered default request rows current target parsed read triggered =
    rw (triggered.known, parsed, read, triggered_passes current target triggered.backward)

-- From `blocked` every target passes for a step backward.
pub blocked_backward :
    (target : LifecycleState)
    → is_state target blocked
        || ltb_ℤ (ladder_rank target) (ladder_rank blocked)
        || is_state blocked blocked
      ≡ true
blocked_backward target = ground arith

-- A demotion returns a state and a ledger exactly when it has read a state from the ledger, names a known
-- trigger, and goes to `blocked`, or to a state below the current one, or to any state if the
-- current one is `blocked`; and the ledger is then the old one with the row of this step on top.
pub demotion_iff :
    (default : LifecycleState) (request : DemoteRequest) (rows rows' : TransitionLedger)
    (target : LifecycleState)
    → (demote default request rows ≡ (ok target, rows')) ↔ (
        (current : LifecycleState) × (validate_lifecycle request.to_state ≡ ok target)
        × (current_state default request.asset_id request.domain request.candidate rows
            ≡ ok current)
        × IsTriggered request current target
        × (demote_row request current target ∷ rows ≡ rows'))
demotion_iff default request rows rows' target = (
  (λ e.
      let (current, to, from, triggered, row) =
        demote-IsTriggered default request rows (ap (λ r. r.0) e) in
      (current, to, from, triggered, sym row ∙ ap (λ r. r.1) e)),
  (λ (current, to, from, triggered, same).
      rw⁻¹ same (demote-triggered default request rows current target to from triggered)),
)
