-- ===== src/Risk/Emergency.antt =====
-- `EmergencyControl` of src/kalshi_bot/risk/emergency_control.py: three guards and, if one is
-- attached, the dashboard's panel.
pub mod Latch
pub mod Snapshot
mod Tests
use kalshi_trading_bot.Prelude.{
  ℕ, Bool, true, false, not, ◌&&◌, ◌||◌, Option, none, some, Outcome, ok, raised, if◌then◌else◌,
}
use kalshi_trading_bot.Prelude.Int.{ℤ}
use kalshi_trading_bot.Risk.Panel.{
  ControlState, HaltReason, drawdown_tripped, daily_loss_tripped, streak_tripped, arm, kill,
}
use kalshi_trading_bot.Risk.DailyLoss.{DailyLossGuard, record_daily_pnl, daily_allows, reset_daily}
use kalshi_trading_bot.Risk.LossStreak.{
  ConsecutiveLossGuard, record_outcome, streak_allows, reset_streak,
}
use kalshi_trading_bot.Risk.Drawdown.{
  DrawdownGuard, GuardState, DrawdownError, Drawdown, is_halted, update, drawdown_allows,
}

pub record EmergencyControl : Type 0 where
  pub drawdown_guard : DrawdownGuard
  pub daily_loss_guard : DailyLossGuard
  pub consecutive_loss_guard : ConsecutiveLossGuard
  pub control_panel : Option ControlState
  pub tripped_reason : Option HaltReason

-- `self._control_panel is not None and self._control_panel.snapshot().halted`
abbrev pub panel_halted : Option ControlState → Bool
panel_halted none = false
panel_halted (some panel) = panel.halted

-- `_trip`; `wall` is the time that `kill` reads from the clock.
unfoldable pub trip : HaltReason → ℕ → EmergencyControl → EmergencyControl
unfolding kill
trip reason wall control = record control {
  tripped_reason = some reason;
  control_panel = elim control.control_panel [
    | none ↦ none
    | some panel ↦ if panel.halted then some panel else some (kill reason wall panel)
  ];
}

abbrev trip_if : Bool → HaltReason → ℕ → EmergencyControl → EmergencyControl
trip_if test reason wall control = if test then trip reason wall control else control

unfoldable pub update_equity :
    ℕ → Option ℕ → ℕ → EmergencyControl → Outcome DrawdownError (Unit {0}) × EmergencyControl
unfolding trip
update_equity equity ts wall control =
    let (result, guard) = update equity ts control.drawdown_guard in
    let next = record control { drawdown_guard = guard } in
    elim result [
      | raised error ↦ (raised error, next)
      | ok state ↦ (
        ok tt,
        trip_if (is_halted guard.state)
            (drawdown_tripped guard.drawdown_all_time.lost guard.drawdown_all_time.peak) wall next,
      )
    ]

-- The two tests come after both guards have recorded the trade; the first one may roll the day.
unfoldable pub record_trade_pnl : ℤ → ℕ → ℕ → EmergencyControl → EmergencyControl
unfolding trip
record_trade_pnl pnl ts wall control =
    let daily = record_daily_pnl pnl ts control.daily_loss_guard in
    let streak = record_outcome pnl control.consecutive_loss_guard in
    let (daily_ok, rolled) = daily_allows ts daily in
    let first =
      trip_if (not daily_ok) (daily_loss_tripped rolled.daily_pnl) wall
        (record control { daily_loss_guard = rolled; consecutive_loss_guard = streak }) in
    trip_if (not (streak_allows streak)) (streak_tripped streak.streak) wall first

-- The answer, and the control that it leaves: `and` asks the daily guard, which may roll the day,
-- only if the drawdown guard allows.
unfoldable pub allows_new_entries : ℕ → EmergencyControl → Bool × EmergencyControl
allows_new_entries ts control =
    let (daily_ok, rolled) = daily_allows ts control.daily_loss_guard in
    if panel_halted control.control_panel
    then (false, control)
    else (if drawdown_allows control.drawdown_guard
        then (
          daily_ok && streak_allows control.consecutive_loss_guard,
          record control { daily_loss_guard = rolled },
        )
        else (false, control))

-- `HaltState`
pub record HaltState : Type 0 where
  pub halted : Bool
  pub reason : Option HaltReason

-- `snapshot` names the daily guard's method without calling it; a bound method counts as true.
unfoldable pub snapshot : EmergencyControl → HaltState
snapshot control = record {
  halted =
      panel_halted control.control_panel
      || not (
          drawdown_allows control.drawdown_guard
          && (true && streak_allows control.consecutive_loss_guard));
  reason = control.tripped_reason;
}

unfoldable pub resume : ℕ → EmergencyControl → EmergencyControl
unfolding arm
resume wall control = record control {
  daily_loss_guard = reset_daily control.daily_loss_guard;
  consecutive_loss_guard = reset_streak control.consecutive_loss_guard;
  tripped_reason = none;
  control_panel = elim control.control_panel [ none ↦ none | some panel ↦ some (arm wall panel) ];
}
