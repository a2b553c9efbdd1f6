-- ===== src/Agents/Profiles/Routing.antt =====
-- The profile that a key is routed to (src/kalshi_bot/agents/profiles.py).
use kalshi_trading_bot.Prelude.{
  ◌≤◌, ◌≡◌, ◌⊎◌, if_both, refl, subst, Bool, true, false, none, some, List, [], ◌∷◌, All, select,
  String, arith, inl, inr,
}
use kalshi_trading_bot.Agents.Profiles.{
  RoutedProfile, matches, specificity, outranks, best_from, best_of, resolve_profile,
}

-- A predicate of some item.
abbrev pub Holds : (RoutedProfile → Type 0) → List RoutedProfile → Type 0
Holds P [] = ⊥
Holds P (profile ∷ profiles) = P profile ⊎ Holds P profiles

-- A profile is among these, and none of them is more specific.
abbrev pub IsBest : RoutedProfile → List RoutedProfile → Type 0
IsBest best profiles =
    Holds (λ p. p ≡ best) profiles × All (λ p. specificity p ≤ specificity best) profiles

outranks-specificity : (a b : RoutedProfile) → outranks a b ≡ true → specificity a ≤ specificity b
unfolding outranks
outranks-specificity a b h = ground arith

stays-specificity : (a b : RoutedProfile) → outranks a b ≡ false → specificity b ≤ specificity a
unfolding outranks
stays-specificity a b h = ground arith

best_from-le :
    (best : RoutedProfile) (profiles : List RoutedProfile)
    → (specificity best ≤ specificity (best_from best profiles))
      × All (λ p. specificity p ≤ specificity (best_from best profiles)) profiles
unfolding best_from
best_from-le best [] = (omega arith, tt)
best_from-le best (other ∷ others) =
    if_both
      (λ b.
        (specificity best ≤ specificity (best_from b others))
        × ((specificity other ≤ specificity (best_from b others))
            × All (λ p. specificity p ≤ specificity (best_from b others)) others))
      (outranks best other) other best
      (λ above.
        let (le, rest) = best_from-le other others in
        let step = outranks-specificity best other above in (omega (arith, le, step), (le, rest)))
      (λ below.
        let (le, rest) = best_from-le best others in
        let step = stays-specificity best other below in (le, (omega (arith, le, step), rest)))

skip_second :
    (first second : RoutedProfile) (others : List RoutedProfile) (r : RoutedProfile)
    → Holds (λ p. p ≡ r) (first ∷ others)
    → Holds (λ p. p ≡ r) (first ∷ second ∷ others)
skip_second first second others r (inl here) = inl here
skip_second first second others r (inr there) = inr (inr there)

none_best : (profiles : List RoutedProfile) → best_of profiles ≡ none → All (λ p. ⊥) profiles
none_best [] h = tt
none_best (profile ∷ profiles) h = cc

best_from-Holds :
    (best : RoutedProfile) (profiles : List RoutedProfile)
    → Holds (λ p. p ≡ best_from best profiles) (best ∷ profiles)
unfolding best_from
best_from-Holds best [] = inl refl
best_from-Holds best (other ∷ others) =
    if_both (λ b. Holds (λ p. p ≡ best_from b others) (best ∷ other ∷ others)) (outranks best other)
      other best (λ above. inr (best_from-Holds other others))
      (λ below. skip_second best other others (best_from best others) (best_from-Holds best others))

best_of-IsBest :
    (profiles : List RoutedProfile) (best : RoutedProfile)
    → best_of profiles ≡ some best
    → IsBest best profiles
best_of-IsBest [] best h = cc
best_of-IsBest (profile ∷ profiles) best h =
    let e : best_from profile profiles ≡ best = cc in
    let (le, rest) = best_from-le profile profiles in
    subst (λ b. IsBest b (profile ∷ profiles)) e (best_from-Holds profile profiles, (le, rest))

-- The source of a selected item, and every item that passes.
select-Holds :
    (test : RoutedProfile → Bool) (P : RoutedProfile → Type 0) (profiles : List RoutedProfile)
    → Holds P (select test profiles)
    → Holds (λ p. P p × (test p ≡ true)) profiles
select-Holds test P [] = λ h. h
select-Holds test P (profile ∷ profiles) =
    if_both (λ xs. Holds P xs → Holds (λ p. P p × (test p ≡ true)) (profile ∷ profiles))
      (test profile) (profile ∷ select test profiles) (select test profiles)
      (λ passes. λ h. elim h [
        | inl here ↦ inl (here, passes)
        | inr there ↦ inr (select-Holds test P profiles there)
      ])
      (λ _. λ h. inr (select-Holds test P profiles h))

select-All :
    (test : RoutedProfile → Bool) (P : RoutedProfile → Type 0) (profiles : List RoutedProfile)
    → All P (select test profiles)
    → All (λ p. test p ≡ true → P p) profiles
select-All test P [] = λ h. tt
select-All test P (profile ∷ profiles) =
    if_both (λ xs. All P xs → All (λ p. test p ≡ true → P p) (profile ∷ profiles)) (test profile)
      (profile ∷ select test profiles) (select test profiles)
      (λ passes. λ (here, rest). ((λ _. here), select-All test P profiles rest))
      (λ fails. λ rest. ((λ passes. cc), select-All test P profiles rest))

-- A key is routed to one of the profiles that match it, and no profile that matches is more specific;
-- and a key is routed nowhere only if no profile matches it.
pub resolve_profile-IsBest :
    (key : String) (profiles : List RoutedProfile)
    → ((best : RoutedProfile)
        → resolve_profile key profiles ≡ some best
        → Holds (λ p. (p ≡ best) × (matches p key ≡ true)) profiles
          × All (λ p. matches p key ≡ true → specificity p ≤ specificity best) profiles)
      × (resolve_profile key profiles ≡ none → All (λ p. matches p key ≡ true → ⊥) profiles)
unfolding resolve_profile
resolve_profile-IsBest key profiles =
    let test : RoutedProfile → Bool = λ p. matches p key in
    (
      (λ best found.
          let (among, above) = best_of-IsBest (select test profiles) best found in
          (
            select-Holds test (λ p. p ≡ best) profiles among,
            select-All test (λ p. specificity p ≤ specificity best) profiles above,
          )),
      (λ nowhere. select-All test (λ p. ⊥) profiles (none_best (select test profiles) nowhere)),
    )
