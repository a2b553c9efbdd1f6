-- ===== src/Risk/Throttle.antt =====
-- `EntryThrottle` of src/kalshi_bot/risk/entry_throttle.py. Times are whole seconds from zero on,
-- so that `entry <= now - window` is `entry + window ≤ now`.
pub mod Window
pub mod Calls
pub mod History
mod Tests
use text.Mathlib.Text.{◌==◌ as str_eq}
use kalshi_trading_bot.Prelude.{
  ℕ, ◌+◌, Bool, true, false, List, [], ◌∷◌, ◌++◌, String, leb, ltb, ◌==◌, if◌then◌else◌, Outcome,
  ok, raised, length, ◌||◌,
}

-- `defaultdict(deque)`: a series that is not there has an empty deque. A deque is oldest first.
abbrev pub Entries : Type 0
Entries = List (String × List ℕ)

pub record EntryThrottle : Type 0 where
  pub max_entries : ℕ
  pub window_s : ℕ
  pub entries : Entries

pub data ThrottleError : Type 0 where
  max_entries_below_one window_not_positive : ThrottleError

-- `EntryThrottle.__init__`
unfoldable pub new_throttle : ℕ → ℕ → Outcome ThrottleError EntryThrottle
new_throttle max_entries window_s =
    if ltb max_entries 1
    then raised max_entries_below_one
    else (if window_s == 0
        then raised window_not_positive
        else ok (record { max_entries = max_entries; window_s = window_s; entries = [] }))

-- `self._entries[series_ticker]`
unfoldable pub entries_of : String → Entries → List ℕ
entries_of series [] = []
entries_of series ((name, times) ∷ rest) =
    if str_eq name series then times else entries_of series rest

unfoldable pub put_entries : String → List ℕ → Entries → Entries
put_entries series times [] = (series, times) ∷ []
put_entries series times ((name, old) ∷ rest) =
    if str_eq name series then (name, times) ∷ rest else (name, old) ∷ put_entries series times rest

-- The loop of `_prune` over one deque: pops from the front while the front has left the window.
unfoldable pub prune_times : ℕ → ℕ → List ℕ → List ℕ
prune_times window now [] = []
prune_times window now (time ∷ times) =
    let rest = prune_times window now times in
    if leb (time + window) now then rest else time ∷ times

-- `_prune`
unfoldable pub prune : String → ℕ → EntryThrottle → EntryThrottle
prune series now throttle = record throttle {
  entries =
      put_entries series (prune_times throttle.window_s now (entries_of series throttle.entries))
        throttle.entries;
}

-- The answer, and the throttle that it leaves.
unfoldable pub throttle_allows : String → ℕ → EntryThrottle → Bool × EntryThrottle
unfolding prune
throttle_allows series now throttle =
    let pruned = prune series now throttle in
    (ltb (length (entries_of series pruned.entries)) throttle.max_entries, pruned)

unfoldable pub record_entry : String → ℕ → EntryThrottle → EntryThrottle
record_entry series now throttle = record throttle {
  entries = put_entries series (entries_of series throttle.entries ++ now ∷ []) throttle.entries;
}

unfoldable pub entries_in_window : String → ℕ → EntryThrottle → ℕ × EntryThrottle
unfolding prune
entries_in_window series now throttle =
    let pruned = prune series now throttle in (length (entries_of series pruned.entries), pruned)
