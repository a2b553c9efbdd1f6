-- ===== src/Governance/Lifecycle/Trace.antt =====
-- Sequences of calls of `promote` and `demote` (src/kalshi_bot/risk/governance.py), and what every
-- row of the ledger shows after them.
use text.Mathlib.Text.{◌==◌ as str_eq}
use kalshi_trading_bot.Prelude.{
  ◌≡◌, ◌⊎◌, inl, inr, refl, List, [], ◌∷◌, String, ok, arith, Bool-cases, ap, ◌∙◌, Appends,
}
use kalshi_trading_bot.Governance.Lifecycle.States.{
  LifecycleState, state_name, validate_lifecycle, validate_lifecycle-state_name,
}
use kalshi_trading_bot.Governance.Lifecycle.{
  TransitionRow, TransitionLedger, PromoteRequest, DemoteRequest, scope_key, state_of, latest,
  current_state, promote, promote_row, demote_row, demote,
}
use kalshi_trading_bot.Governance.Lifecycle.Ladder.{IsEarned, promote-IsEarned}
use kalshi_trading_bot.Governance.Lifecycle.Demotion.{IsTriggered, demote-IsTriggered}
use kalshi_trading_bot.Governance.Lifecycle.Scopes.{promote-cases, demote-cases}

pub data Call : Type 0 where
  promote_call : PromoteRequest → Call
  demote_call : DemoteRequest → Call

-- One call's effect on the ledger, whether it returns or raises.
unfoldable pub after : LifecycleState → Call → TransitionLedger → TransitionLedger
after default (promote_call request) rows = (promote default request rows).1
after default (demote_call request) rows = (demote default request rows).1

unfoldable pub after_all : LifecycleState → List Call → TransitionLedger → TransitionLedger
after_all default [] rows = rows
after_all default (call ∷ calls) rows = after_all default calls (after default call rows)

-- The scope that a call is about.
abbrev pub key_of : Call → String
key_of (promote_call request) = scope_key request.asset_id request.domain request.candidate
key_of (demote_call request) = scope_key request.asset_id request.domain request.candidate

-- A row that an earned promotion or a triggered demotion wrote, from the state that its scope had
-- by the rows below it.
abbrev pub IsAudited : LifecycleState → TransitionLedger → TransitionRow → Type 0
IsAudited default rows row =
    (current : LifecycleState) × (target : LifecycleState) × (state_of default row.scope_key rows
      ≡ ok current)
    × (row.to_state ≡ state_name target)
    × (((request : PromoteRequest) × (row ≡ promote_row request current target)
          × IsEarned request current target)
        ⊎ ((request : DemoteRequest) × (row ≡ demote_row request current target)
            × IsTriggered request current target))

abbrev pub AllAudited : LifecycleState → TransitionLedger → Type 0
AllAudited default [] = Unit
AllAudited default (row ∷ rows) = IsAudited default rows row × AllAudited default rows

promote-Appends :
    (default : LifecycleState) (request : PromoteRequest) (rows : TransitionLedger)
    → Appends (IsAudited default rows) rows (promote default request rows).1
unfolding current_state promote_row
promote-Appends default request rows = elim (promote-cases default request rows) [
  | inl same ↦ inl same
  | inr (target, done) ↦
      let (current, parsed, read, earned, added) = promote-IsEarned default request rows done in
      inr (
        promote_row request current target,
        added,
        (current, target, read, refl, inl (request, refl, earned)),
      )
]

demote-Appends :
    (default : LifecycleState) (request : DemoteRequest) (rows : TransitionLedger)
    → Appends (IsAudited default rows) rows (demote default request rows).1
unfolding current_state demote_row
demote-Appends default request rows = elim (demote-cases default request rows) [
  | inl same ↦ inl same
  | inr (target, done) ↦
      let (current, parsed, read, triggered, added) =
        demote-IsTriggered default request rows done in
      inr (
        demote_row request current target,
        added,
        (current, target, read, refl, inr (request, refl, triggered)),
      )
]

after-Appends :
    (default : LifecycleState) (call : Call) (rows : TransitionLedger)
    → Appends (IsAudited default rows) rows (after default call rows)
unfolding after
after-Appends default (promote_call request) rows = promote-Appends default request rows
after-Appends default (demote_call request) rows = demote-Appends default request rows

Appends-AllAudited :
    (default : LifecycleState) (rows rows' : TransitionLedger)
    → Appends (IsAudited default rows) rows rows'
    → AllAudited default rows
    → AllAudited default rows'
Appends-AllAudited default rows rows' (inl same) h = rw same h
Appends-AllAudited default rows rows' (inr (row, more, audited)) h = rw more (audited, h)

-- After any sequence of promotions and demotions, refused ones included, every row of the ledger
-- was written by an earned promotion or a triggered demotion, from the state that its scope had
-- by the rows below it, if that held at the start.
pub after_all-AllAudited :
    (default : LifecycleState) (calls : List Call) (rows : TransitionLedger)
    → AllAudited default rows
    → AllAudited default (after_all default calls rows)
unfolding after_all
after_all-AllAudited default [] rows h = h
after_all-AllAudited default (call ∷ calls) rows h =
    let next = after default call rows in
    after_all-AllAudited default calls next
      (Appends-AllAudited default rows next (after-Appends default call rows) h)

state_of-known :
    (default : LifecycleState) (key : String) (rows : TransitionLedger)
    → AllAudited default rows
    → (s : LifecycleState) × (state_of default key rows ≡ ok s)
unfolding state_of latest
state_of-known default key [] h = (default, refl)
state_of-known default key (row ∷ rows) ((current, target, _, to, _), h) =
    let written = ap validate_lifecycle to ∙ validate_lifecycle-state_name target in
    elim (Bool-cases (str_eq row.scope_key key)) [
      | inl same ↦ (target, ground arith)
      | inr other ↦ let (s, e) = state_of-known default key rows h in (s, ground arith)
    ]

-- After any sequence of promotions and demotions on a ledger that starts empty, the state of every
-- scope can be read: no call ever stores a text that is no state.
pub current_state-after_all :
    (default : LifecycleState) (calls : List Call) (asset domain candidate : String)
    → (s : LifecycleState) × (current_state default asset domain candidate
          (after_all default calls [])
        ≡ ok s)
unfolding current_state
current_state-after_all default calls asset domain candidate =
    state_of-known default (scope_key asset domain candidate) (after_all default calls [])
      (after_all-AllAudited default calls [] tt)
