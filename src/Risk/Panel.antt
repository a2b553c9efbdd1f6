-- ===== src/Risk/Panel.antt =====
-- `ControlPanel` of src/kalshi_bot/web/control_state.py: the operator's arm and halt state. Its lock
-- makes each method one step.
use kalshi_trading_bot.Prelude.{ℕ, Bool, true, false, Option, none, some}
use kalshi_trading_bot.Prelude.Int.{ℤ}

-- The texts that the program gives as a reason: an f-string is its arguments.
pub data HaltReason : Type 0 where
  operator_start : HaltReason
  operator_kill : HaltReason
  drawdown_tripped : ℕ → ℕ → HaltReason
  daily_loss_tripped : ℤ → HaltReason
  streak_tripped : ℕ → HaltReason

-- `ControlState`
pub record ControlState : Type 0 where
  pub armed : Bool
  pub halted : Bool
  pub last_changed_at : Option ℕ
  pub last_reason : Option HaltReason

-- `ControlPanel.__init__`
unfoldable pub new_panel : ControlState
new_panel = record { armed = false; halted = false; last_changed_at = none; last_reason = none }

-- `now` is what `datetime.now(UTC)` returns.
unfoldable pub arm : ℕ → ControlState → ControlState
arm now panel = record {
  armed = true;
  halted = false;
  last_changed_at = some now;
  last_reason = some operator_start;
}

unfoldable pub kill : HaltReason → ℕ → ControlState → ControlState
kill reason now panel = record {
  armed = false;
  halted = true;
  last_changed_at = some now;
  last_reason = some reason;
}
