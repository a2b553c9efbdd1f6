-- ===== src/Agents/Profiles.antt =====
-- Profiles and their routing (src/kalshi_bot/agents/profiles.py).
pub mod Routing
mod Tests
use Prim.Native.Char.{code}
use Prim.Native.Nat.{Ordering}
use Prim.Native.String.{compare}
use text.Mathlib.Text.{◌==◌ as str_eq}
use kalshi_trading_bot.Prelude.{
  ℕ, suc, Bool, true, false, not, ◌&&◌, ◌||◌, Option, none, some, List, [], ◌∷◌, String, ltb, ◌==◌,
  if◌then◌else◌, select, is_empty_text,
}

-- What routing reads of a profile.
pub record RoutedProfile : Type 0 where
  pub profile_id : String
  pub specialization_pattern : String

abbrev pub is_slash : ℕ → Bool
is_slash c = c == 47

abbrev pub drop_leading : String → String
drop_leading String.[] = ""
drop_leading (String.◌∷◌ c s) =
    let rest = drop_leading s in if is_slash (code c) then rest else String.◌∷◌ c s

abbrev pub drop_trailing : String → String
drop_trailing String.[] = ""
drop_trailing (String.◌∷◌ c s) =
    let rest = drop_trailing s in
    if is_slash (code c) && is_empty_text rest then "" else String.◌∷◌ c rest

-- `text.split("/")`
unfoldable pub split_slash : String → List String
split_slash String.[] = "" ∷ []
split_slash (String.◌∷◌ c s) =
    let rest = split_slash s in
    if is_slash (code c)
    then "" ∷ rest
    else elim rest [ [] ↦ String.◌∷◌ c "" ∷ [] | first ∷ others ↦ String.◌∷◌ c first ∷ others ]

unfoldable pub segments : String → List String
segments text = split_slash (drop_trailing (drop_leading text))

abbrev pub is_star : String → Bool
is_star segment = str_eq segment "*"

-- Segment by segment, and none left on either side.
unfoldable pub segments_match : List String → List String → Bool
segments_match [] [] = true
segments_match [] (actual ∷ rest) = false
segments_match (pattern_segment ∷ patterns) [] = false
segments_match (pattern_segment ∷ patterns) (actual ∷ rest) =
    (is_star pattern_segment || str_eq pattern_segment actual) && segments_match patterns rest

abbrev pub matches : RoutedProfile → String → Bool
matches profile key = segments_match (segments profile.specialization_pattern) (segments key)

unfoldable pub count_fixed : List String → ℕ
count_fixed [] = 0
count_fixed (segment ∷ rest) =
    let others = count_fixed rest in if is_star segment then others else suc others

abbrev pub specificity : RoutedProfile → ℕ
specificity profile = count_fixed (segments profile.specialization_pattern)

-- `(specificity, profile_id)` of the second is greater than that of the first.
unfoldable pub outranks : RoutedProfile → RoutedProfile → Bool
outranks best other =
    ltb (specificity best) (specificity other)
    || ((specificity best == specificity other)
        && elim (compare best.profile_id other.profile_id) [ Ordering.lt ↦ true | _ ↦ false ])

-- `max(…, key=…)`: the first of the greatest.
unfoldable pub best_from : RoutedProfile → List RoutedProfile → RoutedProfile
best_from best [] = best
best_from best (other ∷ others) = best_from (if outranks best other then other else best) others

abbrev pub best_of : List RoutedProfile → Option RoutedProfile
best_of [] = none
best_of (profile ∷ profiles) = some (best_from profile profiles)

unfoldable pub resolve_profile : String → List RoutedProfile → Option RoutedProfile
resolve_profile key profiles = best_of (select (λ profile. matches profile key) profiles)
