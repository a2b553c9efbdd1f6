-- ===== src/Risk/Throttle/Calls.antt =====
-- Sequences of calls of `EntryThrottle` (src/kalshi_bot/risk/entry_throttle.py), and what one call
-- does to the deque of a series.
use text.Mathlib.Text.{◌==◌ as str_eq}
use text.Mathlib.TextEquality.{eq_iff}
use kalshi_trading_bot.Prelude.{
  ℕ, ◌+◌, ◌≤◌, ◌≡◌, refl, List, [], ◌∷◌, ◌++◌, String, ltb, ◌&&◌, if◌then◌else◌, arith,
}
use kalshi_trading_bot.Risk.Throttle.{
  Entries, EntryThrottle, entries_of, put_entries, prune_times, throttle_allows, record_entry,
}

pub entries_of-put_entries :
    (series other : String) (times : List ℕ) (entries : Entries)
    → entries_of other (put_entries series times entries)
      ≡ (if str_eq series other then times else entries_of other entries)
unfolding entries_of put_entries
entries_of-put_entries series other times [] = refl
entries_of-put_entries series other times ((name, old) ∷ rest) = ground (
  arith,
  eq_iff series other,
  eq_iff name series,
  eq_iff name other,
  entries_of-put_entries series other times rest,
)

-- The calls that touch a throttle: a question, or the record of a filled entry.
pub data Call : Type 0 where
  ask : String → ℕ → Call
  enter : String → ℕ → Call

abbrev pub time_of : Call → ℕ
time_of (ask series now) = now
time_of (enter series now) = now

unfoldable pub after : Call → EntryThrottle → EntryThrottle
after (ask series now) throttle = (throttle_allows series now throttle).1
after (enter series now) throttle = record_entry series now throttle

-- The calls are newest first.
unfoldable pub after_all : List Call → EntryThrottle → EntryThrottle
after_all [] throttle = throttle
after_all (call ∷ calls) throttle = after call (after_all calls throttle)

-- The calls come in the order of time, the newest at `now` or before.
abbrev pub IsChronological : ℕ → List Call → Type 0
IsChronological now [] = Unit
IsChronological now (call ∷ calls) = (time_of call ≤ now) × IsChronological (time_of call) calls

-- The entries of a series that were recorded in the window that ends at `now`.
abbrev pub recorded : String → ℕ → ℕ → List Call → ℕ
recorded series window now [] = 0
recorded series window now (ask _ _ ∷ calls) = recorded series window now calls
recorded series window now (enter name time ∷ calls) =
    recorded series window now calls
    + (if str_eq name series && ltb now (time + window) then 1 else 0)

pub asked_entries :
    (series name : String) (now : ℕ) (throttle : EntryThrottle)
    → entries_of series (after (ask name now) throttle).entries ≡ (
        if str_eq name series
        then prune_times throttle.window_s now (entries_of series throttle.entries)
        else entries_of series throttle.entries)
unfolding after throttle_allows
asked_entries series name now throttle = ground (
  arith,
  eq_iff name series,
  entries_of-put_entries name series
      (prune_times throttle.window_s now (entries_of name throttle.entries)) throttle.entries,
)

pub asked_settings :
    (name : String) (now : ℕ) (throttle : EntryThrottle)
    → ((after (ask name now) throttle).max_entries ≡ throttle.max_entries)
      × ((after (ask name now) throttle).window_s ≡ throttle.window_s)
unfolding after throttle_allows
asked_settings name now throttle = (refl, refl)

pub entered_entries :
    (series name : String) (now : ℕ) (throttle : EntryThrottle)
    → entries_of series (after (enter name now) throttle).entries ≡ (
        if str_eq name series
        then entries_of series throttle.entries ++ now ∷ []
        else entries_of series throttle.entries)
unfolding after record_entry
entered_entries series name now throttle = ground (
  arith,
  eq_iff name series,
  entries_of-put_entries name series (entries_of name throttle.entries ++ now ∷ [])
      throttle.entries,
)
