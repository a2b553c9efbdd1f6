-- ===== src/Governance/Lifecycle/Ladder.antt =====
-- What `promote` and `demote` of src/kalshi_bot/risk/governance.py demand before they add a row.
use kalshi_trading_bot.Prelude.{
  Bool, true, false, ◌≡◌, String, All, is_empty_text, not, if◌then◌else◌, inl, inr, refl, none,
  List, [], ◌∷◌, Outcome, ok, raised, Option-cases, is_blank, is_empty, ◌||◌, arith, Bool-cases, ap,
  sym, ◌∙◌, ◌↔◌,
}
use kalshi_trading_bot.Governance.Lifecycle.States.{
  LifecycleState, disabled, observe, backtest, shadow, paper, blocked, LifecycleError, is_state,
  validate_lifecycle,
}
use kalshi_trading_bot.Governance.Lifecycle.{
  TransitionLedger, PromotionEvidence, gate_passed, failing, PromoteRequest, failing_gates,
  missing_fingerprints, current_state, promotion_refusal, promote_row, promote, promote_from,
  promote_to,
}

-- The ladder: one stage and the next.
abbrev pub is_next : LifecycleState → LifecycleState → Bool
is_next disabled observe = true
is_next observe backtest = true
is_next backtest shadow = true
is_next shadow paper = true
is_next _ _ = false

-- None of the four fingerprints is empty.
pub record IsFingerprinted (evidence : PromotionEvidence) : Type 0 where
  pub reported : is_empty_text evidence.report_id ≡ false
  pub on_data : is_empty_text evidence.data_manifest_hash ≡ false
  pub on_model : is_empty_text evidence.model_fingerprint ≡ false
  pub on_policy : is_empty_text evidence.risk_policy_version ≡ false

-- What stands behind a promotion that was made.
pub record IsEarned (request : PromoteRequest) (current target : LifecycleState) : Type 0 where
  pub next_stage : is_next current target ≡ true
  pub named : is_blank request.operator ≡ false
  pub fingerprinted : IsFingerprinted request.evidence
  pub gates_pass :
      All (λ gate. gate_passed request.evidence.gate_results gate ≡ true) request.required_gates

none_missing :
    (evidence : PromotionEvidence)
    → is_empty (missing_fingerprints evidence) ≡ true
    → IsFingerprinted evidence
unfolding missing_fingerprints
none_missing evidence h = ground arith

fingerprinted-missing :
    (evidence : PromotionEvidence) → IsFingerprinted evidence → missing_fingerprints evidence ≡ []
unfolding missing_fingerprints
fingerprinted-missing evidence p = rw (p.reported, p.on_data, p.on_model, p.on_policy) refl

none_added :
    (passed : Bool) (gate : String) (rest : List String)
    → is_empty (if not passed then gate ∷ rest else rest) ≡ true
    → (passed ≡ true) × (is_empty rest ≡ true)
none_added true gate rest h = (refl, h)
none_added false gate rest h = cc

none_failing :
    (results : List (String × Bool)) (gates : List String)
    → is_empty (failing results gates) ≡ true
    → All (λ gate. gate_passed results gate ≡ true) gates
none_failing results [] h = tt
none_failing results (gate ∷ gates) h =
    let (passed, rest) = none_added (gate_passed results gate) gate (failing results gates) h in
    (passed, none_failing results gates rest)

passed-failing :
    (results : List (String × Bool)) (gates : List String)
    → All (λ gate. gate_passed results gate ≡ true) gates
    → failing results gates ≡ []
passed-failing results [] h = refl
passed-failing results (gate ∷ gates) (h, hs) = rw (h, passed-failing results gates hs) refl

refusal-none :
    (request : PromoteRequest) (current target : LifecycleState)
    → promotion_refusal request current target ≡ none
    → (is_empty (missing_fingerprints request.evidence) ≡ true)
      × (is_empty (failing_gates request.evidence request.required_gates) ≡ true)
      × (is_state current blocked ≡ false)
unfolding promotion_refusal
refusal-none request current target h = ground arith

refusal-none-is_next :
    (request : PromoteRequest) (current target : LifecycleState)
    → is_state target blocked || is_state target disabled ≡ false
    → promotion_refusal request current target ≡ none
    → is_next current target ≡ true
unfolding promotion_refusal
refusal-none-is_next request disabled target a h = ground arith
refusal-none-is_next request observe target a h = ground arith
refusal-none-is_next request backtest target a h = ground arith
refusal-none-is_next request shadow target a h = ground arith
refusal-none-is_next request paper target a h = ground arith
refusal-none-is_next request blocked target a h = ground arith

-- The inversion of `promote`, over what it reads.
promote_from-ok :
    (request : PromoteRequest) (target : LifecycleState)
    (found : Outcome LifecycleError LifecycleState) (rows : TransitionLedger)
    {result : LifecycleState}
    → (promote_from request target found rows).0 ≡ ok result
    → (current : LifecycleState) × (found ≡ ok current)
      × (target ≡ result)
      × (promotion_refusal request current target ≡ none)
      × ((promote_from request target found rows).1 ≡ promote_row request current target ∷ rows)
promote_from-ok request target (raised error) rows h = cc
promote_from-ok request target (ok current) rows h =
    elim (Option-cases (promotion_refusal request current target)) [
      | inl passed ↦ (current, refl, ground arith, passed, rw passed)
      | inr (error, e) ↦ absurd (ground arith)
    ]

promote_to-ok :
    (default : LifecycleState) (request : PromoteRequest)
    (parsed : Outcome LifecycleError LifecycleState) (rows : TransitionLedger)
    {result : LifecycleState}
    → (promote_to default request parsed rows).0 ≡ ok result
    → (target : LifecycleState) × (parsed ≡ ok target)
      × (is_state target blocked || is_state target disabled ≡ false)
      × (is_blank request.operator ≡ false)
      × (promote_to default request parsed rows
          ≡ promote_from request target
              (current_state default request.asset_id request.domain request.candidate rows)
              rows)
promote_to-ok default request (raised error) rows h = cc
promote_to-ok default request (ok target) rows h =
    elim (Bool-cases (is_state target blocked || is_state target disabled)) [
      | inl down ↦ absurd (ground arith)
      | inr up ↦ elim (Bool-cases (is_blank request.operator)) [
        | inl blank ↦ absurd (ground arith)
        | inr named ↦ (target, refl, up, named, rw (up, named))
      ]
    ]

-- A promotion that succeeds has read a state from the ledger, climbs exactly one stage of the
-- ladder to the state that was asked for, names an operator that is not blank, has all four
-- fingerprints and passes every required gate; and it adds one row on top of the ledger.
pub promote-IsEarned :
    (default : LifecycleState) (request : PromoteRequest) (rows : TransitionLedger)
    {target : LifecycleState}
    → (promote default request rows).0 ≡ ok target
    → (current : LifecycleState) × (validate_lifecycle request.to_state ≡ ok target)
      × (current_state default request.asset_id request.domain request.candidate rows ≡ ok current)
      × IsEarned request current target
      × ((promote default request rows).1 ≡ promote_row request current target ∷ rows)
unfolding promote failing_gates
promote-IsEarned default request rows {target} h =
    let (t, parsed, up, named, step) =
      promote_to-ok default request (validate_lifecycle request.to_state) rows h in
    let found = current_state default request.asset_id request.domain request.candidate rows in
    let (current, read, same, passed, row) =
      promote_from-ok request t found rows (ap (λ r. r.0) (sym step) ∙ h) in
    let (prints, gates, _) = refusal-none request current t passed in
    (
      current,
      rw (← same) parsed,
      read,
      rw (← same) (record {
        next_stage = refusal-none-is_next request current t up passed;
        named = named;
        fingerprinted = none_missing request.evidence prints;
        gates_pass = none_failing request.evidence.gate_results request.required_gates gates;
      }),
      rw (← same) (ap (λ r. r.1) step ∙ row),
    )

earned_passes :
    (request : PromoteRequest) (current target : LifecycleState)
    → is_next current target ≡ true
    → missing_fingerprints request.evidence ≡ []
    → failing_gates request.evidence request.required_gates ≡ []
    → (promotion_refusal request current target ≡ none)
      × (is_state target blocked || is_state target disabled ≡ false)
unfolding promotion_refusal
earned_passes request disabled target n m f = ground arith
earned_passes request observe target n m f = ground arith
earned_passes request backtest target n m f = ground arith
earned_passes request shadow target n m f = ground arith
earned_passes request paper target n m f = ground arith
earned_passes request blocked target n m f = ground arith

-- A promotion that is earned goes through: it returns the target and adds its row.
pub promote-earned :
    (default : LifecycleState) (request : PromoteRequest) (rows : TransitionLedger)
    (current target : LifecycleState)
    → validate_lifecycle request.to_state ≡ ok target
    → current_state default request.asset_id request.domain request.candidate rows ≡ ok current
    → IsEarned request current target
    → promote default request rows ≡ (ok target, promote_row request current target ∷ rows)
unfolding promote failing_gates
promote-earned default request rows current target parsed read earned =
    let (passed, up) =
      earned_passes request current target earned.next_stage
        (fingerprinted-missing request.evidence earned.fingerprinted)
        (passed-failing request.evidence.gate_results request.required_gates earned.gates_pass) in
    rw (parsed, up, earned.named, read, passed)

-- A promotion returns a state and a ledger exactly when it has read a state from the ledger, climbs
-- exactly one stage of the ladder from it to the state that was asked for, names an operator that is not
-- blank, has all four fingerprints and passes every required gate; and the ledger is then the old
-- one with the row of this step on top.
pub promotion_iff :
    (default : LifecycleState) (request : PromoteRequest) (rows rows' : TransitionLedger)
    (target : LifecycleState)
    → (promote default request rows ≡ (ok target, rows')) ↔ (
        (current : LifecycleState) × (validate_lifecycle request.to_state ≡ ok target)
        × (current_state default request.asset_id request.domain request.candidate rows
            ≡ ok current)
        × IsEarned request current target
        × (promote_row request current target ∷ rows ≡ rows'))
promotion_iff default request rows rows' target = (
  (λ e.
      let (current, to, from, earned, row) =
        promote-IsEarned default request rows (ap (λ r. r.0) e) in
      (current, to, from, earned, sym row ∙ ap (λ r. r.1) e)),
  (λ (current, to, from, earned, same).
      rw⁻¹ same (promote-earned default request rows current target to from earned)),
)
