-- ===== src/Risk/Throttle/History.antt =====
-- `EntryThrottle` (src/kalshi_bot/risk/entry_throttle.py) against the history of its calls.
use text.Mathlib.Text.{◌==◌ as str_eq}
use text.Mathlib.TextEquality.{eq_iff}
use kalshi_trading_bot.Prelude.{
  ℕ, ◌+◌, ◌≤◌, ◌≡◌, List, [], ◌∷◌, String, ltb, ◌&&◌, if◌then◌else◌, arith, ok, ap, sym, subst, ◌∙◌,
}
use kalshi_trading_bot.Risk.Throttle.{
  EntryThrottle, new_throttle, entries_of, prune_times, throttle_allows, record_entry,
}
use kalshi_trading_bot.Risk.Throttle.Window.{
  recent, IsAscending, IsAscending-raise, length-prune_times, asked-IsAscending, asked_recent,
  entered-IsAscending, entered_recent,
}
use kalshi_trading_bot.Risk.Throttle.Calls.{
  entries_of-put_entries, Call, ask, enter, after, after_all, IsChronological, recorded,
  asked_entries, asked_settings, entered_entries,
}

pub record Follows (series : String) (max window latest : ℕ) (calls : List Call)
    (throttle : EntryThrottle) : Type 0 where
  pub same_max : throttle.max_entries ≡ max
  pub same_window : throttle.window_s ≡ window
  pub ascending : IsAscending 0 latest (entries_of series throttle.entries)
  pub counted :
      (now : ℕ)
      → latest ≤ now
      → recent window now (entries_of series throttle.entries) ≡ recorded series window now calls

module _ (series : String) (max window latest : ℕ) (calls : List Call) (throttle : EntryThrottle)
    (follows : Follows series max window latest calls throttle) where
  ask-Follows :
      (name : String) (now : ℕ)
      → latest ≤ now
      → Follows series max window now (ask name now ∷ calls) (after (ask name now) throttle)
  ask-Follows name now le =
      let times = entries_of series throttle.entries in
      let (kept_max, kept_window) = asked_settings name now throttle in
      let e =
        asked_entries series name now throttle
        ∙ ap (λ w. if str_eq name series then prune_times w now times else times)
            follows.same_window in
      record {
        same_max = kept_max ∙ follows.same_max;
        same_window = kept_window ∙ follows.same_window;
        ascending =
            rw e
              (asked-IsAscending window now latest times (str_eq name series) le follows.ascending);
        counted = λ later after_now.
            ap (recent window later) e
            ∙ asked_recent window now later times (str_eq name series) after_now
            ∙ follows.counted later (omega arith);
      }

  enter-Follows :
      (name : String) (now : ℕ)
      → latest ≤ now
      → Follows series max window now (enter name now ∷ calls) (after (enter name now) throttle)
  unfolding after record_entry
  enter-Follows name now le =
      let times = entries_of series throttle.entries in
      let e = entered_entries series name now throttle in
      record {
        same_max = follows.same_max;
        same_window = follows.same_window;
        ascending =
            rw e (entered-IsAscending now latest times (str_eq name series) le follows.ascending);
        counted = λ later after_now.
            ap (recent window later) e
            ∙ entered_recent window now later times (str_eq name series)
            ∙ ap (λ n. n + (if str_eq name series && ltb later (now + window) then 1 else 0))
                (follows.counted later (omega arith));
      }

  -- The answer at a later time.
  follows_allows :
      (now : ℕ)
      → latest ≤ now
      → (throttle_allows series now throttle).0 ≡ ltb (recorded series window now calls) max
  unfolding throttle_allows
  follows_allows now le =
      let times = entries_of series throttle.entries in
      ground (
        arith,
        eq_iff series series,
        entries_of-put_entries series series (prune_times throttle.window_s now times)
            throttle.entries,
        length-prune_times throttle.window_s now 0 latest times follows.ascending,
        follows.same_max,
        follows.same_window,
        follows.counted now le,
      )

raise-Follows :
    (series : String) (max window latest later : ℕ) (calls : List Call) (throttle : EntryThrottle)
    → latest ≤ later
    → Follows series max window latest calls throttle
    → Follows series max window later calls throttle
raise-Follows series max window latest later calls throttle le follows = record {
  same_max = follows.same_max;
  same_window = follows.same_window;
  ascending =
      IsAscending-raise 0 latest later (entries_of series throttle.entries) le follows.ascending;
  counted = λ now after_later. follows.counted now (omega arith);
}

new_throttle_fields :
    (max window : ℕ) (throttle : EntryThrottle)
    → new_throttle max window ≡ ok throttle
    → (throttle.max_entries ≡ max) × (throttle.window_s ≡ window) × (throttle.entries ≡ [])
unfolding new_throttle
new_throttle_fields max window throttle made = ground arith

new_throttle-Follows :
    (series : String) (max window latest : ℕ) (throttle : EntryThrottle)
    → new_throttle max window ≡ ok throttle
    → Follows series max window latest [] throttle
unfolding entries_of
new_throttle-Follows series max window latest throttle made =
    let (same_max, same_window, none_yet) = new_throttle_fields max window throttle made in
    record {
      same_max = same_max;
      same_window = same_window;
      ascending =
          subst (λ e. IsAscending 0 latest (entries_of series e)) (sym none_yet) (omega arith);
      counted = λ now _. ap (λ e. recent window now (entries_of series e)) none_yet;
    }

after_all-Follows :
    (series : String) (max window latest : ℕ) (calls : List Call) (throttle : EntryThrottle)
    → new_throttle max window ≡ ok throttle
    → IsChronological latest calls
    → Follows series max window latest calls (after_all calls throttle)
unfolding after_all
after_all-Follows series max window latest [] throttle made order =
    new_throttle-Follows series max window latest throttle made
after_all-Follows series max window latest (ask name now ∷ calls) throttle made (le, order) =
    raise-Follows series max window now latest (ask name now ∷ calls) _ le (
      ask-Follows series max window now calls (after_all calls throttle)
        (after_all-Follows series max window now calls throttle made order) name now (omega arith))
after_all-Follows series max window latest (enter name now ∷ calls) throttle made (le, order) =
    raise-Follows series max window now latest (enter name now ∷ calls) _ le (
      enter-Follows series max window now calls (after_all calls throttle)
        (after_all-Follows series max window now calls throttle made order) name now (omega arith))

-- After any questions and entries for any series, in the order of time, a throttle allows an entry
-- exactly when fewer than `max` entries of that series were recorded in the window of length
-- `window` that ends now.
pub throttle_allows-after_all :
    (series : String) (max window now : ℕ) (calls : List Call) {throttle : EntryThrottle}
    → new_throttle max window ≡ ok throttle
    → IsChronological now calls
    → (throttle_allows series now (after_all calls throttle)).0
      ≡ ltb (recorded series window now calls) max
throttle_allows-after_all series max window now calls {throttle} made order =
    follows_allows series max window now calls (after_all calls throttle)
      (after_all-Follows series max window now calls throttle made order) now (omega arith)
