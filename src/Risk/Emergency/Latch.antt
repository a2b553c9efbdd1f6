-- ===== src/Risk/Emergency/Latch.antt =====
-- The panel as a latch over `EmergencyControl` (src/kalshi_bot/risk/emergency_control.py): what
-- trips it, and what releases it.
use kalshi_trading_bot.Prelude.{
  ℕ, Bool, true, false, ◌&&◌, ◌≡◌, Option, some, List, [], ◌∷◌, arith, ok,
}
use kalshi_trading_bot.Prelude.Int.{ℤ}
use kalshi_trading_bot.Risk.Panel.{ControlState, HaltReason}
use kalshi_trading_bot.Risk.DailyLoss.{daily_allows, record_daily_pnl}
use kalshi_trading_bot.Risk.LossStreak.{streak_allows, record_outcome}
use kalshi_trading_bot.Risk.Drawdown.{is_halted}
use kalshi_trading_bot.Risk.Emergency.{
  EmergencyControl, panel_halted, trip, trip_if, update_equity, record_trade_pnl,
  allows_new_entries,
}

-- What the loop feeds in, and the questions it asks; not `resume`, and no human at the panel.
pub data Event : Type 0 where
  equity_update : ℕ → Option ℕ → ℕ → Event
  trade : ℤ → ℕ → ℕ → Event
  question : ℕ → Event

unfoldable pub after : Event → EmergencyControl → EmergencyControl
after (equity_update equity ts wall) control = (update_equity equity ts wall control).1
after (trade pnl ts wall) control = record_trade_pnl pnl ts wall control
after (question ts) control = (allows_new_entries ts control).1

unfoldable pub after_all : List Event → EmergencyControl → EmergencyControl
after_all [] control = control
after_all (event ∷ events) control = after_all events (after event control)

trip_keeps_halt :
    (reason : HaltReason) (wall : ℕ) (test : Bool) (control : EmergencyControl)
    → panel_halted control.control_panel ≡ true
    → panel_halted (trip_if test reason wall control).control_panel ≡ true
unfolding trip
trip_keeps_halt reason wall test control h = ground arith

after_keeps_halt :
    (event : Event) (control : EmergencyControl)
    → panel_halted control.control_panel ≡ true
    → panel_halted (after event control).control_panel ≡ true
unfolding after update_equity record_trade_pnl allows_new_entries
after_keeps_halt (equity_update equity ts wall) control h = ground arith
after_keeps_halt (trade pnl ts wall) control h = ground arith
after_keeps_halt (question ts) control h = ground arith

-- While the panel is halted no equity, trade or question lifts the halt: entries stay refused at
-- every time, over any sequence of them, on later days too.
pub halt_latches :
    (events : List Event) (ts : ℕ) (control : EmergencyControl)
    → panel_halted control.control_panel ≡ true
    → (allows_new_entries ts (after_all events control)).0 ≡ false
unfolding after_all allows_new_entries
halt_latches [] ts control h = rw h
halt_latches (event ∷ events) ts control h =
    halt_latches events ts (after event control) (after_keeps_halt event control h)

-- With a panel attached, a trade after which the daily guard or the streak guard refuses entries
-- leaves the panel halted.
pub trade_trips_panel :
    (pnl : ℤ) (ts wall : ℕ) (control : EmergencyControl) {panel : ControlState}
    → control.control_panel ≡ some panel
    → (daily_allows ts (record_daily_pnl pnl ts control.daily_loss_guard)).0
        && streak_allows (record_outcome pnl control.consecutive_loss_guard)
      ≡ false
    → panel_halted (record_trade_pnl pnl ts wall control).control_panel ≡ true
unfolding record_trade_pnl
trade_trips_panel pnl ts wall control attached refused = ground arith

-- With a panel attached, an equity update that returns and leaves the drawdown guard halted
-- leaves the panel halted.
pub equity_trips_panel :
    (equity wall : ℕ) (ts : Option ℕ) (control : EmergencyControl) {panel : ControlState}
    → control.control_panel ≡ some panel
    → (update_equity equity ts wall control).0 ≡ ok tt
    → is_halted (update_equity equity ts wall control).1.drawdown_guard.state ≡ true
    → panel_halted (update_equity equity ts wall control).1.control_panel ≡ true
unfolding update_equity
equity_trips_panel equity wall ts control attached returned down = ground arith
