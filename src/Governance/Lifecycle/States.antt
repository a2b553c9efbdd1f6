-- ===== src/Governance/Lifecycle/States.antt =====
-- The states of src/kalshi_bot/config/lifecycle.py, and their ranks on the promotion ladder of
-- src/kalshi_bot/risk/governance.py.
use text.Mathlib.Text.{◌==◌ as str_eq}
use kalshi_trading_bot.Prelude.{
  Bool, true, false, List, String, Outcome, ok, raised, if◌then◌else◌, ◌≡◌, refl,
}
use kalshi_trading_bot.Prelude.Int.{ℤ, pos, negsuc}

-- `LifecycleState`
pub data LifecycleState : Type 0 where
  disabled observe backtest shadow paper blocked : LifecycleState

pub data LifecycleError : Type 0 where
  unsupported_state unknown_trigger : String → LifecycleError
  use_demote no_operator scope_blocked : LifecycleError
  not_forward skips_stage not_backward : LifecycleState → LifecycleState → LifecycleError
  no_fingerprints gates_failing : List String → LifecycleError

abbrev pub state_name : LifecycleState → String
state_name disabled = "disabled"
state_name observe = "observe"
state_name backtest = "backtest"
state_name shadow = "shadow"
state_name paper = "paper"
state_name blocked = "blocked"

-- `validate_lifecycle`, which returns the text that it was given.
unfoldable pub validate_lifecycle : String → Outcome LifecycleError LifecycleState
validate_lifecycle state =
    if str_eq state "disabled"
    then ok disabled
    else (if str_eq state "observe"
        then ok observe
        else (if str_eq state "backtest"
            then ok backtest
            else (if str_eq state "shadow"
                then ok shadow
                else (if str_eq state "paper"
                    then ok paper
                    else (if str_eq state "blocked"
                        then ok blocked
                        else raised (unsupported_state state))))))

-- A comparison of two states.
abbrev pub is_state : LifecycleState → LifecycleState → Bool
is_state disabled disabled = true
is_state observe observe = true
is_state backtest backtest = true
is_state shadow shadow = true
is_state paper paper = true
is_state blocked blocked = true
is_state _ _ = false

-- `_ORDER`
unfoldable pub ladder_rank : LifecycleState → ℤ
ladder_rank disabled = pos 0
ladder_rank observe = pos 1
ladder_rank backtest = pos 2
ladder_rank shadow = pos 3
ladder_rank paper = pos 4
ladder_rank blocked = negsuc 0

pub validate_lifecycle-state_name : (s : LifecycleState) → validate_lifecycle (state_name s) ≡ ok s
unfolding validate_lifecycle
validate_lifecycle-state_name disabled = refl
validate_lifecycle-state_name observe = refl
validate_lifecycle-state_name backtest = refl
validate_lifecycle-state_name shadow = refl
validate_lifecycle-state_name paper = refl
validate_lifecycle-state_name blocked = refl
