-- ===== src/Risk/Emergency/Snapshot.antt =====
-- `snapshot` and `resume` of `EmergencyControl` (src/kalshi_bot/risk/emergency_control.py) against the
-- gate that they report on.
use kalshi_trading_bot.Prelude.{ℕ, true, false, ◌≡◌, some, arith}
use kalshi_trading_bot.Risk.Panel.{ControlState, arm}
use kalshi_trading_bot.Risk.DailyLoss.{daily_allows, reset_daily}
use kalshi_trading_bot.Risk.LossStreak.{streak_allows, reset_streak}
use kalshi_trading_bot.Risk.Drawdown.{is_halted, drawdown_allows}
use kalshi_trading_bot.Risk.Emergency.{
  EmergencyControl, panel_halted, allows_new_entries, snapshot, resume,
}

-- Whenever the snapshot says halted, the gate refuses entries, at any time.
pub snapshot_sound :
    (ts : ℕ) (control : EmergencyControl)
    → (snapshot control).halted ≡ true
    → (allows_new_entries ts control).0 ≡ false
unfolding snapshot allows_new_entries
snapshot_sound ts control h = ground arith

-- When the daily guard is the only one that refuses and no panel is halted, the gate refuses
-- entries and the snapshot says that nothing is halted.
pub snapshot_misses_daily_halt :
    (ts : ℕ) (control : EmergencyControl)
    → panel_halted control.control_panel ≡ false
    → drawdown_allows control.drawdown_guard ≡ true
    → streak_allows control.consecutive_loss_guard ≡ true
    → (daily_allows ts control.daily_loss_guard).0 ≡ false
    → ((allows_new_entries ts control).0 ≡ false) × ((snapshot control).halted ≡ false)
unfolding snapshot allows_new_entries
snapshot_misses_daily_halt ts control panel drawdown streak daily = ground arith

-- After a resume, at any time, entries are allowed exactly when the drawdown guard allows them:
-- the daily guard, the streak guard and the panel are cleared, and a halt of the drawdown guard
-- stays.
pub allows_new_entries-resume :
    (ts wall : ℕ) (control : EmergencyControl)
    → (allows_new_entries ts (resume wall control)).0 ≡ drawdown_allows control.drawdown_guard
unfolding allows_new_entries resume daily_allows reset_daily streak_allows reset_streak
allows_new_entries-resume ts wall control = ground arith

-- A resume while the drawdown guard is halted arms an attached panel, which then shows no halt,
-- and entries stay refused.
pub resume_rearms_halted :
    (ts wall : ℕ) (control : EmergencyControl) {panel : ControlState}
    → control.control_panel ≡ some panel
    → is_halted control.drawdown_guard.state ≡ true
    → ((resume wall control).control_panel ≡ some (arm wall panel))
      × (panel_halted (resume wall control).control_panel ≡ false)
      × ((allows_new_entries ts (resume wall control)).0 ≡ false)
unfolding allows_new_entries resume drawdown_allows
resume_rearms_halted ts wall control attached down = ground arith
