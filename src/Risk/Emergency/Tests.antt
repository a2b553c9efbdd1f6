-- ===== src/Risk/Emergency/Tests.antt =====
-- The emergency control on concrete states.
use kalshi_trading_bot.Prelude.{true, false, ◌&&◌, Option, none, some, List, [], ◌∷◌, ◌≡◌, refl}
use kalshi_trading_bot.Prelude.Int.{pos, negsuc, ◌+ℤ◌, ◌-ℤ◌}
use kalshi_trading_bot.Risk.Panel.{ControlState, arm}
use kalshi_trading_bot.Risk.DailyLoss.{DailyLossGuard, daily_allows, record_daily_pnl}
use kalshi_trading_bot.Risk.LossStreak.{ConsecutiveLossGuard, streak_allows, record_outcome}
use kalshi_trading_bot.Risk.Drawdown.{DrawdownGuard, normal, halted, no_drawdown, drawdown_allows}
use kalshi_trading_bot.Risk.Emergency.{
  EmergencyControl, panel_halted, allows_new_entries, snapshot, resume,
}
use kalshi_trading_bot.Risk.Emergency.Latch.{
  Event, equity_update, trade, question, after_all, halt_latches,
}
use kalshi_trading_bot.Risk.Emergency.Snapshot.{snapshot_misses_daily_halt, resume_rearms_halted}

abbrev drawdown_guard : DrawdownGuard
drawdown_guard = record {
  pause_pct = 100000;
  halt_pct = 200000;
  peak_window_s = none;
  allow_reentry_after_halt = false;
  peak_equity = 1000;
  all_time_peak = 1000;
  state = normal;
  drawdown = no_drawdown;
  drawdown_all_time = no_drawdown;
  ever_halted = false;
  peaks = [];
}

abbrev daily_guard : DailyLossGuard
daily_guard = record {
  max_daily_loss = pos 300;
  current_date = some 10;
  daily_pnl = negsuc 199;
  halted_today = false;
  manually_reset = false;
}

abbrev streak_guard : ConsecutiveLossGuard
streak_guard = record {
  max_consecutive_losses = 3;
  streak = 1;
  halted = false;
  recent_outcomes = true ∷ [];
}

abbrev armed_panel : ControlState
armed_panel = record { armed = true; halted = false; last_changed_at = none; last_reason = none }

abbrev halted_panel : ControlState
halted_panel = record { armed = false; halted = true; last_changed_at = some 5; last_reason = none }

abbrev control_with : Option ControlState → DrawdownGuard → DailyLossGuard → EmergencyControl
control_with panel drawdown daily = record {
  drawdown_guard = drawdown;
  daily_loss_guard = daily;
  consecutive_loss_guard = streak_guard;
  control_panel = panel;
  tripped_reason = none;
}

abbrev running : EmergencyControl
running = control_with (some armed_panel) drawdown_guard daily_guard

abbrev stopped : EmergencyControl
stopped = control_with (some halted_panel) drawdown_guard daily_guard

abbrev quiet_halt : EmergencyControl
quiet_halt =
    control_with (some armed_panel) drawdown_guard (record daily_guard { halted_today = true })

abbrev drawn_down : EmergencyControl
drawn_down = control_with (some halted_panel) (record drawdown_guard { state = halted }) daily_guard

abbrev events : List Event
events = trade (pos 900) 864100 7 ∷ equity_update 1200 none 8 ∷ question 950400 ∷ []

halt_latches_example : (allows_new_entries 950500 (after_all events stopped)).0 ≡ false
halt_latches_example = halt_latches events 950500 stopped refl

daily_refuses :
    (daily_allows 864100 (record_daily_pnl (negsuc 149) 864100 daily_guard)).0
      && streak_allows (record_outcome (negsuc 149) streak_guard)
    ≡ false
unfolding daily_allows record_daily_pnl record_outcome streak_allows ◌+ℤ◌ ◌-ℤ◌
daily_refuses = refl

drawdown_fine : drawdown_allows drawdown_guard ≡ true
unfolding drawdown_allows
drawdown_fine = refl

streak_fine : streak_allows streak_guard ≡ true
unfolding streak_allows
streak_fine = refl

daily_down : (daily_allows 864100 (record daily_guard { halted_today = true })).0 ≡ false
unfolding daily_allows
daily_down = refl

snapshot_misses_daily_halt_example :
    ((allows_new_entries 864100 quiet_halt).0 ≡ false) × ((snapshot quiet_halt).halted ≡ false)
snapshot_misses_daily_halt_example =
    snapshot_misses_daily_halt 864100 quiet_halt refl drawdown_fine streak_fine daily_down

resume_rearms_halted_example :
    ((resume 9 drawn_down).control_panel ≡ some (arm 9 halted_panel))
    × (panel_halted (resume 9 drawn_down).control_panel ≡ false)
    × ((allows_new_entries 864200 (resume 9 drawn_down)).0 ≡ false)
resume_rearms_halted_example = resume_rearms_halted 864200 9 drawn_down refl refl
