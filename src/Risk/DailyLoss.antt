-- ===== src/Risk/DailyLoss.antt =====
-- `DailyLossGuard` of src/kalshi_bot/risk/daily_loss_guard.py. Amounts are integers in a fixed
-- smallest unit, and a time is in seconds, so that a UTC date is the number of its day.
pub mod Day
mod Tests
use kalshi_trading_bot.Prelude.{
  ℕ, ◌/◌, Bool, true, false, not, ◌&&◌, ◌||◌, Option, none, some, ◌==◌, if◌then◌else◌, Outcome, ok,
  raised,
}
use kalshi_trading_bot.Prelude.Int.{ℤ, pos, ◌+ℤ◌, ◌-ℤ◌, leb_ℤ}

pub record DailyLossGuard : Type 0 where
  pub max_daily_loss : ℤ
  pub current_date : Option ℕ
  pub daily_pnl : ℤ
  pub halted_today : Bool
  pub manually_reset : Bool

pub data GuardError : Type 0 where
  limit_not_positive : GuardError

-- `DailyLossGuard.__init__`
unfoldable pub new_daily_guard : ℤ → Outcome GuardError DailyLossGuard
new_daily_guard max_daily_loss =
    if leb_ℤ max_daily_loss (pos 0)
    then raised limit_not_positive
    else ok (record {
      max_daily_loss = max_daily_loss;
      current_date = none;
      daily_pnl = pos 0;
      halted_today = false;
      manually_reset = false;
    })

-- `ts.astimezone(UTC).date()`
abbrev pub utc_date : ℕ → ℕ
utc_date ts = ts / 86400

unfoldable pub roll_day_if_needed : ℕ → DailyLossGuard → DailyLossGuard
roll_day_if_needed ts guard = elim guard.current_date [
  | none ↦ record guard { current_date = some (utc_date ts) }
  | some day ↦ if day == utc_date ts then guard else record guard {
    current_date = some (utc_date ts);
    daily_pnl = pos 0;
    halted_today = false;
    manually_reset = false;
  }
]

unfoldable pub record_daily_pnl : ℤ → ℕ → DailyLossGuard → DailyLossGuard
unfolding roll_day_if_needed
record_daily_pnl pnl ts guard =
    let rolled = roll_day_if_needed ts guard in
    let total = rolled.daily_pnl +ℤ pnl in
    record rolled {
      daily_pnl = total;
      halted_today =
          (leb_ℤ total (pos 0 -ℤ rolled.max_daily_loss) && not rolled.manually_reset)
          || rolled.halted_today;
    }

-- The answer, and the guard that it leaves.
unfoldable pub daily_allows : ℕ → DailyLossGuard → Bool × DailyLossGuard
unfolding roll_day_if_needed
daily_allows ts guard =
    let rolled = roll_day_if_needed ts guard in (not rolled.halted_today, rolled)

-- `DailyLossGuard.reset`
unfoldable pub reset_daily : DailyLossGuard → DailyLossGuard
reset_daily guard = record guard { halted_today = false; manually_reset = true }
