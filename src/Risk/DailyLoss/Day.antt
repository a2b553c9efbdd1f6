-- ===== src/Risk/DailyLoss/Day.antt =====
-- One UTC day of `DailyLossGuard` (src/kalshi_bot/risk/daily_loss_guard.py).
use kalshi_trading_bot.Prelude.{
  ℕ, Bool, true, false, not, ◌≡◌, ◌≢◌, none, some, List, [], ◌∷◌, arith, All, ap, sym, ok, ◌∙◌,
  ◌||◌,
}
use kalshi_trading_bot.Prelude.Int.{ℤ, pos, ◌+ℤ◌, ◌-ℤ◌, leb_ℤ, +ℤ_assoc, zero-+ℤ, int_laws}
use kalshi_trading_bot.Risk.DailyLoss.{
  DailyLossGuard, utc_date, record_daily_pnl, daily_allows, new_daily_guard,
}

-- A closed trade: its realized result and its time.
abbrev pub Trade : Type 0
Trade = ℤ × ℕ

unfoldable pub record_all : List Trade → DailyLossGuard → DailyLossGuard
record_all [] guard = guard
record_all ((pnl, ts) ∷ trades) guard = record_all trades (record_daily_pnl pnl ts guard)

abbrev pub total_pnl : List Trade → ℤ
total_pnl [] = pos 0
total_pnl ((pnl, ts) ∷ trades) = pnl +ℤ total_pnl trades

-- The running total, from a start, falls to the limit at some trade.
abbrev pub breaches : ℤ → ℤ → List Trade → Bool
breaches limit total [] = false
breaches limit total ((pnl, ts) ∷ trades) =
    leb_ℤ (total +ℤ pnl) (pos 0 -ℤ limit) || breaches limit (total +ℤ pnl) trades

-- Every trade is on one day.
abbrev pub AllOnDay : ℕ → List Trade → Type 0
AllOnDay day trades = All (λ t. utc_date t.1 ≡ day) trades

record_on_day :
    (pnl : ℤ) (ts : ℕ) (guard : DailyLossGuard)
    → guard.current_date ≡ some (utc_date ts)
    → guard.manually_reset ≡ false
    → record_daily_pnl pnl ts guard ≡ record guard {
      daily_pnl = guard.daily_pnl +ℤ pnl;
      halted_today =
          leb_ℤ (guard.daily_pnl +ℤ pnl) (pos 0 -ℤ guard.max_daily_loss) || guard.halted_today;
    }
unfolding record_daily_pnl
record_on_day pnl ts guard today fresh = ground arith

-- On one day without a manual reset the guard adds up the results, and halts as soon as the
-- running total falls to the limit, whatever comes after.
record_all_on_day :
    (day : ℕ) (trades : List Trade) (guard : DailyLossGuard)
    → guard.current_date ≡ some day
    → guard.manually_reset ≡ false
    → AllOnDay day trades
    → ((record_all trades guard).current_date ≡ some day)
      × ((record_all trades guard).daily_pnl ≡ guard.daily_pnl +ℤ total_pnl trades)
      × ((record_all trades guard).halted_today
          ≡ guard.halted_today || breaches guard.max_daily_loss guard.daily_pnl trades)
unfolding record_all
record_all_on_day day [] guard today fresh h = (today, omega int_laws, ground arith)
record_all_on_day day ((pnl, ts) ∷ trades) guard today fresh (on_day, h) =
    let next : DailyLossGuard = record guard {
      daily_pnl = guard.daily_pnl +ℤ pnl;
      halted_today =
          leb_ℤ (guard.daily_pnl +ℤ pnl) (pos 0 -ℤ guard.max_daily_loss) || guard.halted_today;
    } in
    let (date, pnls, halts) = record_all_on_day day trades next today fresh h in
    let e = record_on_day pnl ts guard (today ∙ ap some (sym on_day)) fresh in
    (
      ap (λ g. (record_all trades g).current_date) e ∙ date,
      ap (λ g. (record_all trades g).daily_pnl) e
          ∙ pnls
          ∙ +ℤ_assoc guard.daily_pnl pnl (total_pnl trades),
      ap (λ g. (record_all trades g).halted_today) e ∙ halts ∙ ground arith,
    )

record_first :
    (pnl : ℤ) (ts : ℕ) (guard : DailyLossGuard)
    → guard.current_date ≡ none
    → record_daily_pnl pnl ts guard
      ≡ record_daily_pnl pnl ts (record guard { current_date = some (utc_date ts) })
unfolding record_daily_pnl
record_first pnl ts guard unset = ground arith

allows_today :
    (ts : ℕ) (guard : DailyLossGuard)
    → guard.current_date ≡ some (utc_date ts)
    → (daily_allows ts guard).0 ≡ not guard.halted_today
unfolding daily_allows
allows_today ts guard today = ground arith

-- A guard that has seen no trade yet.
record IsFresh (limit : ℤ) (guard : DailyLossGuard) : Type 0 where
  same_limit : guard.max_daily_loss ≡ limit
  no_date : guard.current_date ≡ none
  no_pnl : guard.daily_pnl ≡ pos 0
  not_halted : guard.halted_today ≡ false
  not_reset : guard.manually_reset ≡ false

new_daily_guard-IsFresh :
    (limit : ℤ) (guard : DailyLossGuard) → new_daily_guard limit ≡ ok guard → IsFresh limit guard
unfolding new_daily_guard
new_daily_guard-IsFresh limit guard made = ground arith

breaches_start :
    (limit bound total : ℤ) (halted : Bool) (trades : List Trade)
    → bound ≡ limit
    → total ≡ pos 0
    → halted ≡ false
    → halted || breaches bound total trades ≡ breaches limit (pos 0) trades
breaches_start limit bound total halted trades p q r = rw (r, p, q)

allows-record_all_fresh :
    (limit : ℤ) (ts : ℕ) (trades : List Trade) (guard : DailyLossGuard)
    → IsFresh limit guard
    → AllOnDay (utc_date ts) trades
    → (daily_allows ts (record_all trades guard)).0 ≡ not (breaches limit (pos 0) trades)
unfolding daily_allows record_all
allows-record_all_fresh limit ts [] guard fresh h = ground arith
allows-record_all_fresh limit ts ((pnl, at) ∷ trades) guard fresh (on_day, h) =
    let dated : DailyLossGuard = record guard { current_date = some (utc_date at) } in
    let (date, _, halts) =
      record_all_on_day (utc_date ts) ((pnl, at) ∷ trades) dated (ap some on_day) fresh.not_reset
        (on_day, h) in
    ap (λ g. (daily_allows ts (record_all trades g)).0) (record_first pnl at guard fresh.no_date)
    ∙ allows_today ts (record_all ((pnl, at) ∷ trades) dated) date
    ∙ ap not (
        halts
        ∙ breaches_start limit guard.max_daily_loss guard.daily_pnl guard.halted_today
            ((pnl, at) ∷ trades) fresh.same_limit fresh.no_pnl fresh.not_halted)

-- A new guard that is fed the trades of one UTC day allows entries on that day exactly while the
-- running total has never fallen to the limit: the halt is not lifted by later wins.
pub daily_allows-record_all :
    (limit : ℤ) (ts : ℕ) (trades : List Trade) {guard : DailyLossGuard}
    → new_daily_guard limit ≡ ok guard
    → AllOnDay (utc_date ts) trades
    → (daily_allows ts (record_all trades guard)).0 ≡ not (breaches limit (pos 0) trades)
daily_allows-record_all limit ts trades {guard} made h =
    allows-record_all_fresh limit ts trades guard (new_daily_guard-IsFresh limit guard made) h

-- On a later or earlier UTC day than the guard's the day starts over: entries are allowed, and the
-- first trade's result alone is the total, halted or reset as the guard may have been.
pub daily_allows_next_day :
    (pnl : ℤ) (ts day : ℕ) (guard : DailyLossGuard)
    → guard.current_date ≡ some day
    → day ≢ utc_date ts
    → ((daily_allows ts guard).0 ≡ true)
      × ((record_daily_pnl pnl ts guard).daily_pnl ≡ pnl)
      × ((daily_allows ts (record_daily_pnl pnl ts guard)).0
          ≡ not (leb_ℤ pnl (pos 0 -ℤ guard.max_daily_loss)))
unfolding daily_allows record_daily_pnl
daily_allows_next_day pnl ts day guard dated other = ground (arith, zero-+ℤ pnl)
