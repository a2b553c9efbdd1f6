-- ===== src/Governance/Lifecycle/Readback.antt =====
-- What the lifecycle ledger (src/kalshi_bot/risk/governance.py) reads as after a call: the scope
-- that was written, and the others.
use kalshi_trading_bot.Prelude.{true, ◌≡◌, ◌≢◌, inl, inr, refl, List, [], ◌∷◌, String, ok, ap, ◌∙◌}
use kalshi_trading_bot.Governance.Lifecycle.States.{
  LifecycleState, blocked, validate_lifecycle, validate_lifecycle-state_name,
}
use kalshi_trading_bot.Governance.Lifecycle.{
  TransitionLedger, PromoteRequest, DemoteRequest, scope_key, state_of, is_demotion_trigger,
  current_state, promote, promote_row, demote_row, demote,
}
use kalshi_trading_bot.Governance.Lifecycle.Ladder.{promote-IsEarned}
use kalshi_trading_bot.Governance.Lifecycle.Demotion.{
  demote-IsTriggered, demote-triggered, blocked_backward,
}
use kalshi_trading_bot.Governance.Lifecycle.Scopes.{
  state_of-cons_self, state_of-cons_ne, promote-cases, demote-cases,
}
use kalshi_trading_bot.Governance.Lifecycle.Trace.{
  Call, promote_call, demote_call, after, after_all, key_of,
}

state_of-after_ne :
    (default : LifecycleState) (call : Call) (key : String) (rows : TransitionLedger)
    → key_of call ≢ key
    → state_of default key (after default call rows) ≡ state_of default key rows
unfolding after promote_row demote_row
state_of-after_ne default (promote_call request) key rows ne =
    elim (promote-cases default request rows) [
      | inl same ↦ ap (state_of default key) same
      | inr (target, done) ↦
          let (current, _, _, _, added) = promote-IsEarned default request rows done in
          ap (state_of default key) added ∙ state_of-cons_ne default key _ rows ne
    ]
state_of-after_ne default (demote_call request) key rows ne =
    elim (demote-cases default request rows) [
      | inl same ↦ ap (state_of default key) same
      | inr (target, done) ↦
          let (current, _, _, _, added) = demote-IsTriggered default request rows done in
          ap (state_of default key) added ∙ state_of-cons_ne default key _ rows ne
    ]

-- Every call is about a scope whose key is not `key`.
abbrev pub AllElsewhere : String → List Call → Type 0
AllElsewhere key [] = Unit
AllElsewhere key (call ∷ calls) = (key_of call ≢ key) × AllElsewhere key calls

-- A sequence of calls about other scopes, refused or not, leaves the state of a scope as it was.
pub state_of-after_all_ne :
    (default : LifecycleState) (calls : List Call) (key : String) (rows : TransitionLedger)
    → AllElsewhere key calls
    → state_of default key (after_all default calls rows) ≡ state_of default key rows
unfolding after_all
state_of-after_all_ne default [] key rows h = refl
state_of-after_all_ne default (call ∷ calls) key rows (ne, h) =
    state_of-after_all_ne default calls key (after default call rows) h
    ∙ state_of-after_ne default call key rows ne

-- A promotion that returns a state is what the scope's state then reads as.
pub current_state-promote :
    (default : LifecycleState) (request : PromoteRequest) (rows : TransitionLedger)
    {target : LifecycleState}
    → (promote default request rows).0 ≡ ok target
    → current_state default request.asset_id request.domain request.candidate
        (promote default request rows).1
      ≡ ok target
unfolding current_state promote_row
current_state-promote default request rows {target} done =
    let (current, _, _, _, added) = promote-IsEarned default request rows done in
    ap (state_of default (scope_key request.asset_id request.domain request.candidate)) added
    ∙ state_of-cons_self default (promote_row request current target) rows
    ∙ validate_lifecycle-state_name target

-- A scope that is `blocked` can be demoted, for a known trigger, to any state at all, up to
-- `paper`, which is what it then reads as; no gate, fingerprint or operator is asked for.
pub demote_out_of_blocked :
    (default : LifecycleState) (request : DemoteRequest) (rows : TransitionLedger)
    (target : LifecycleState)
    → is_demotion_trigger request.trigger ≡ true
    → validate_lifecycle request.to_state ≡ ok target
    → current_state default request.asset_id request.domain request.candidate rows ≡ ok blocked
    → ((demote default request rows).0 ≡ ok target)
      × (current_state default request.asset_id request.domain request.candidate
            (demote default request rows).1
          ≡ ok target)
unfolding current_state demote_row
demote_out_of_blocked default request rows target known parsed read =
    let done =
      demote-triggered default request rows blocked target parsed read
        (record { known = known; backward = blocked_backward target }) in
    (
      ap (λ r. r.0) done,
      ap (λ r. state_of default (scope_key request.asset_id request.domain request.candidate) r.1)
            done
          ∙ state_of-cons_self default (demote_row request blocked target) rows
          ∙ validate_lifecycle-state_name target,
    )
