-- ===== src/Agents/Coordinator/Take.antt =====
-- What stands behind a decision to take a trade (src/kalshi_bot/agents/coordinator.py).
use text.Mathlib.Text.{◌==◌ as str_eq}
use text.Mathlib.TextEquality.{eq_iff}
use kalshi_trading_bot.Prelude.{
  ℕ, ◌≤◌, ◌≡◌, refl, Bool, true, false, not, ◌&&◌, Option, none, some, List, [], ◌∷◌, ◌++◌, String,
  arith, if_both,
}
use kalshi_trading_bot.Agents.Contracts.{CouncilDecision, CouncilPolicy, is_take, is_sized_right}
use kalshi_trading_bot.Agents.Validation.{error_if}
use kalshi_trading_bot.Agents.Coordinator.Calls.{RoleAttempt}
use kalshi_trading_bot.Agents.Coordinator.Decision.{
  CouncilCandidate, hold_decision, decision_errors, accept, decide, decide_raw,
  decision_from_master, loosens, is_action,
}

-- A decision is about this run, keeps the candidate's action, and loosens neither its price nor its
-- size.
pub record IsWithin (candidate : CouncilCandidate) (run_id : String) (decision : CouncilDecision)
    : Type 0 where
  pub own_run : decision.council_run_id ≡ run_id
  pub same_action : decision.selected_action ≡ some candidate.proposed_action
  pub price_kept :
      (proposed limit : ℕ)
      → candidate.proposed_price ≡ some proposed
      → decision.max_entry_price ≡ some limit
      → limit ≤ proposed
  pub size_kept :
      (proposed limit : ℕ)
      → candidate.proposed_size ≡ some proposed
      → decision.max_size ≡ some limit
      → limit ≤ proposed

pub append-nil : (xs ys : List String) → (xs ++ ys) ≡ [] → (xs ≡ []) × (ys ≡ [])
append-nil [] ys h = (refl, h)
append-nil (x ∷ xs) ys h = cc

pub no_last_error : (b : Bool) (text : String) → error_if b text ≡ [] → b ≡ false
unfolding error_if
no_last_error true text h = cc
no_last_error false text h = refl

tight :
    (proposed limit : Option ℕ) (p l : ℕ)
    → loosens proposed limit ≡ false
    → proposed ≡ some p
    → limit ≡ some l
    → l ≤ p
tight proposed limit p l h ep el = ground arith

own_action :
    (takes : Bool) (selected : Option String) (action : String)
    → (takes && not (is_action selected action)) ≡ false
    → takes ≡ true
    → selected ≡ some action
own_action takes none action h t = ground arith
own_action takes (some selected) action h t = ground (arith, eq_iff selected action)

pub same_text : (a b : String) → not (str_eq a b) ≡ false → a ≡ b
same_text a b h = ground (arith, eq_iff a b)

module _ (candidate : CouncilCandidate) (run_id : String) (policy : CouncilPolicy)
    (verdict_ids : List String) where
  abbrev IsSafe : CouncilDecision → Type 0
  IsSafe decision = is_take decision.outcome ≡ true → IsWithin candidate run_id decision

  held-IsSafe : (reason : String) → IsSafe (hold_decision run_id policy reason)
  unfolding hold_decision
  held-IsSafe reason takes = cc

  clean-IsWithin :
      (decision : CouncilDecision)
      → decision_errors decision candidate run_id verdict_ids ≡ []
      → IsSafe decision
  unfolding decision_errors
  clean-IsWithin decision clean takes =
      let (rest, size) = append-nil _ _ clean in
      let (rest, price) = append-nil _ _ rest in
      let (rest, action) = append-nil _ _ rest in
      let (_, run) = append-nil _ _ rest in
      record {
        own_run = same_text decision.council_run_id run_id (no_last_error _ _ run);
        same_action =
            own_action (is_take decision.outcome) decision.selected_action candidate.proposed_action
              (no_last_error _ _ action) takes;
        price_kept = λ p l.
            tight candidate.proposed_price decision.max_entry_price p l (no_last_error _ _ price);
        size_kept =
            λ p l. tight candidate.proposed_size decision.max_size p l (no_last_error _ _ size);
      }

  accept-IsSafe :
      (errors : List String) (decision : CouncilDecision)
      → decision_errors decision candidate run_id verdict_ids ≡ errors
      → IsSafe (accept errors decision run_id policy)
  accept-IsSafe [] decision clean = clean-IsWithin decision clean
  accept-IsSafe (error ∷ errors) decision e = held-IsSafe _

  decide-IsSafe :
      (read : Option CouncilDecision) → IsSafe (decide read candidate policy run_id verdict_ids)
  decide-IsSafe none = held-IsSafe _
  decide-IsSafe (some decision) =
      if_both IsSafe (is_sized_right decision) _ _
        (λ _. accept-IsSafe (decision_errors decision candidate run_id verdict_ids) decision refl)
        (λ _. held-IsSafe _)

  decide_raw-IsSafe :
      (read_decision : String → Option CouncilDecision) (raw : Option String)
      (attempt : RoleAttempt)
      → IsSafe (decide_raw read_decision raw attempt candidate policy run_id verdict_ids)
  decide_raw-IsSafe read_decision none attempt = held-IsSafe _
  decide_raw-IsSafe read_decision (some raw) attempt =
      if_both IsSafe (str_eq attempt.status "completed") _ _
        (λ _. decide-IsSafe (read_decision raw)) (λ _. held-IsSafe _)

  pub decision_from_master-IsSafe :
      (read_decision : String → Option CouncilDecision) (attempt : RoleAttempt)
      → IsSafe (decision_from_master read_decision attempt candidate policy run_id verdict_ids)
  unfolding decision_from_master
  decision_from_master-IsSafe read_decision attempt =
      decide_raw-IsSafe read_decision attempt.raw_output attempt
