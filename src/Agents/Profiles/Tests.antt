-- ===== src/Agents/Profiles/Tests.antt =====
-- The routing of a key on concrete profiles (src/kalshi_bot/agents/profiles.py).
use kalshi_trading_bot.Prelude.{◌≡◌, refl, some, none, List, [], ◌∷◌}
use kalshi_trading_bot.Agents.Profiles.{
  RoutedProfile, resolve_profile, segments, split_slash, segments_match, best_from, outranks,
  count_fixed,
}

abbrev any_market : RoutedProfile
any_market = record { profile_id = "any"; specialization_pattern = "kalshi/*/*" }

abbrev crypto : RoutedProfile
crypto = record { profile_id = "crypto"; specialization_pattern = "kalshi/crypto/*" }

abbrev profiles : List RoutedProfile
profiles = any_market ∷ crypto ∷ any_market ∷ []

segments_test : segments "//kalshi//x/" ≡ ("kalshi" ∷ "" ∷ "x" ∷ [])
unfolding segments split_slash
segments_test = refl

most_specific_test : resolve_profile "kalshi/crypto/hourly" profiles ≡ some crypto
unfolding resolve_profile segments_match segments split_slash best_from outranks count_fixed
most_specific_test = refl

no_match_test : resolve_profile "kalshi/crypto" profiles ≡ none
unfolding resolve_profile segments_match segments split_slash
no_match_test = refl
