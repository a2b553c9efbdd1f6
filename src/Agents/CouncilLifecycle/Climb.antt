-- ===== src/Agents/CouncilLifecycle/Climb.antt =====
-- From any stage up to `paper_council` (src/kalshi_bot/agents/lifecycle.py).
use kalshi_trading_bot.Prelude.{
  ℕ, zero, suc, ◌+◌, ◌-◌, ◌≡◌, refl, ap, ◌∙◌, true, false, some, List, ◌∷◌, String, arith, is_blank,
}
use kalshi_trading_bot.Prelude.Dict.{str_eq_self}
use kalshi_trading_bot.Agents.CouncilLifecycle.{
  ProfileLifecycle, disabled, fixture, replay, shadow, paper_advisory, paper_council, order_of,
  named_state, eligible, LifecycleRow, current_state, PromoteRequest, promote, promoted_row,
}
use kalshi_trading_bot.Agents.CouncilLifecycle.Promotions.{promotable-promote}

-- The name of the stage above a stage.
abbrev next_name : ProfileLifecycle → String
next_name disabled = "fixture"
next_name fixture = "replay"
next_name replay = "shadow"
next_name shadow = "paper_advisory"
next_name paper_advisory = "paper_council"
next_name paper_council = "paper_council"

abbrev next_state : ProfileLifecycle → ProfileLifecycle
next_state disabled = fixture
next_state fixture = replay
next_state replay = shadow
next_state shadow = paper_advisory
next_state paper_advisory = paper_council
next_state paper_council = paper_council

named_state-next_name : (s : ProfileLifecycle) → named_state (next_name s) ≡ some (next_state s)
unfolding named_state
named_state-next_name disabled = refl
named_state-next_name fixture = refl
named_state-next_name replay = refl
named_state-next_name shadow = refl
named_state-next_name paper_advisory = refl
named_state-next_name paper_council = refl

stage_above :
    (s : ProfileLifecycle) (n : ℕ)
    → order_of s + suc n ≡ 5
    → order_of (next_state s) ≡ order_of s + 1
stage_above s n left = ground arith

top_stage : (s : ProfileLifecycle) → order_of s ≡ 5 → s ≡ paper_council
top_stage s top = ground arith

-- A new row is what its profile then reads as.
current_state-promoted :
    (default current target : ProfileLifecycle) (request : PromoteRequest)
    (rows : List LifecycleRow)
    → current_state default request.profile_id (promoted_row request current target ∷ rows) ≡ target
unfolding current_state
current_state-promoted default current target request rows =
    rw (str_eq_self request.profile_id) refl

-- An operator who asks, a number of times, for the stage above the current one, with one report.
unfoldable pub climb : ProfileLifecycle → PromoteRequest → ℕ → List LifecycleRow → List LifecycleRow
climb default request zero rows = rows
climb default request (suc n) rows =
    let asked = record request {
      to_state = next_name (current_state default request.profile_id rows);
    } in
    climb default request n (promote default asked rows).1

module _ (default : ProfileLifecycle) (request : PromoteRequest)
    (operated : is_blank request.operator ≡ false)
    (same_profile : request.report.profile_id ≡ request.profile_id)
    (same_version : request.report.profile_version ≡ request.profile_version)
    (passed : eligible request.report ≡ true) where
  climb_step :
      (rows : List LifecycleRow) (n : ℕ)
      → order_of (current_state default request.profile_id rows) + suc n ≡ 5
      → let asked = record request {
        to_state = next_name (current_state default request.profile_id rows);
      } in
        current_state default request.profile_id (promote default asked rows).1
        ≡ next_state (current_state default request.profile_id rows)
  climb_step rows n left =
      let current = current_state default request.profile_id rows in
      let asked : PromoteRequest = record request { to_state = next_name current } in
      let done = promotable-promote default asked rows (next_state current) (record {
        operated = operated;
        same_profile = same_profile;
        same_version = same_version;
        passed = passed;
        known = named_state-next_name current;
        one_step = stage_above current n left;
      }) in
      rw done (current_state-promoted default current (next_state current) asked rows)

  climb_reaches :
      (n : ℕ) (rows : List LifecycleRow)
      → order_of (current_state default request.profile_id rows) + n ≡ 5
      → current_state default request.profile_id (climb default request n rows) ≡ paper_council
  unfolding climb
  climb_reaches zero rows left =
      top_stage (current_state default request.profile_id rows) (omega arith)
  climb_reaches (suc n) rows left =
      let current = current_state default request.profile_id rows in
      let asked : PromoteRequest = record request { to_state = next_name current } in
      climb_reaches n (promote default asked rows).1 (
        ap (λ s. order_of s + n) (climb_step rows n left)
        ∙ omega (arith, stage_above current n left))

bounded : (s : ProfileLifecycle) → order_of s + (5 - order_of s) ≡ 5
bounded s = ground arith

-- From any ledger an operator with an eligible report about a profile's version brings that
-- profile to `paper_council`, by asking for the next stage as often as stages are left.
pub council_is_reachable :
    (default : ProfileLifecycle) (request : PromoteRequest) (rows : List LifecycleRow)
    → is_blank request.operator ≡ false
    → request.report.profile_id ≡ request.profile_id
    → request.report.profile_version ≡ request.profile_version
    → eligible request.report ≡ true
    → let left = 5 - order_of (current_state default request.profile_id rows) in
      current_state default request.profile_id (climb default request left rows) ≡ paper_council
council_is_reachable default request rows operated same_profile same_version passed =
    let current = current_state default request.profile_id rows in
    climb_reaches default request operated same_profile same_version passed (5 - order_of current)
      rows (bounded current)
