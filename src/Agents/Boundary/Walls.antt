-- ===== src/Agents/Boundary/Walls.antt =====
-- What stands between a candidate and the paper adapter (src/kalshi_bot/agents/admission.py).
use kalshi_trading_bot.Prelude.{
  ℕ, ◌≤◌, ◌≡◌, ◌≢◌, refl, Bool, true, false, Option, none, some, List, [], ◌∷◌, ◌∙◌, sym, ap, subst,
  arith, Outcome, ok, raised, All, map, is_empty, Bool-cases, inl, inr, if◌then◌else◌,
}
use kalshi_trading_bot.Agents.Boundary.{
  Candidate, AdmissionCheck, AdmissionMode, shadow, paper_advisory, paper_council, Council,
  CouncilOutcome, take, hold_off, turn_down, Action, ran_council, called_adapter, held,
  initial_screen, deterministic_prescreen, tighten_candidate, tighten, failures, review,
  review_council, review_final, review_outcome, Review, adapted,
}

-- A value is there, and within a limit where there is one.
abbrev pub IsWithin : Option ℕ → Option ℕ → Type 0
IsWithin value none = Unit
IsWithin none (some limit) = ⊥
IsWithin (some value) (some limit) = value ≤ limit

abbrev pub Passes :
    {Details : Type 0} → Candidate Details → (Candidate Details → AdmissionCheck) → Type 0
Passes candidate check = (check candidate).passed ≡ true

screen-Passes :
    {Details : Type 0} (candidate : Candidate Details)
    (checks : List (Candidate Details → AdmissionCheck))
    → is_empty (failures (map (λ check. check candidate) checks)) ≡ true
    → All (Passes candidate) checks
screen-Passes candidate [] h = tt
screen-Passes candidate (check ∷ checks) h = elim (Bool-cases (check candidate).passed) [
  | inl passed ↦ (passed, screen-Passes candidate checks (ground arith))
  | inr failed ↦ absurd (ground arith)
]

Passes-screen :
    {Details : Type 0} (candidate : Candidate Details)
    (checks : List (Candidate Details → AdmissionCheck))
    → All (Passes candidate) checks
    → is_empty (failures (map (λ check. check candidate) checks)) ≡ true
Passes-screen candidate [] h = refl
Passes-screen candidate (check ∷ checks) (p, h) = ground (arith, Passes-screen candidate checks h)

-- The calls that reach the adapter.
abbrev pub adapter_calls : {Details : Type 0} → List (Action Details) → List (Candidate Details)
adapter_calls [] = []
adapter_calls (ran_council _ ∷ actions) = adapter_calls actions
adapter_calls (called_adapter candidate ∷ actions) = candidate ∷ adapter_calls actions

tighten-IsWithin : (value limit : Option ℕ) → IsWithin (tighten value limit) limit
tighten-IsWithin value none = tt
tighten-IsWithin none (some limit) = omega arith
tighten-IsWithin (some value) (some limit) = omega arith

tighten-below : (value limit : Option ℕ) → value ≢ none → IsWithin (tighten value limit) value
tighten-below none limit h = absurd (h refl)
tighten-below (some value) none h = omega arith
tighten-below (some value) (some limit) h = omega arith

module _ {Details Adapted Error : Type 0} (mode : AdmissionMode)
    (pre_checks final_checks : List (Candidate Details → AdmissionCheck))
    (run_council : Candidate Details → Outcome Error Council)
    (adapter_fn : Candidate Details → Outcome Error Adapted) where
  -- What it takes to reach the adapter with `adjusted`: another mode than `shadow`, every early check on
  -- the candidate, a council that says `take`, its ceilings, and every final check on the result.
  pub record IsWalled (candidate : Candidate Details) (council : Council)
      (adjusted : Candidate Details) : Type 0 where
    pub in_paper : mode ≢ shadow
    pub screened : All (Passes candidate) pre_checks
    pub advised_by : run_council candidate ≡ ok council
    pub says_take : council.outcome ≡ take
    pub tightened : adjusted ≡ tighten_candidate candidate council.max_entry_price council.max_size
    pub rechecked : All (Passes adjusted) final_checks

  adapted-calls :
      (original adjusted : Candidate Details) (result : Outcome Error Adapted)
      → adapter_calls (adapted original adjusted result).actions ≡ adjusted ∷ []
  adapted-calls original adjusted (ok _) = refl
  adapted-calls original adjusted (raised _) = refl

  final-calls :
      (original adjusted : Candidate Details)
      → adapter_calls
          (review_final mode pre_checks final_checks run_council adapter_fn original
            adjusted).actions
        ≡ (if (deterministic_prescreen adjusted final_checks).allowed then adjusted ∷ [] else [])
  final-calls original adjusted =
      ground (arith, adapted-calls original adjusted (adapter_fn adjusted))

  final-reached :
      (allowed : Bool) (adjusted c : Candidate Details) (rest : List (Candidate Details))
      → (if allowed then adjusted ∷ [] else []) ≡ c ∷ rest
      → (allowed ≡ true) × (c ≡ adjusted) × (rest ≡ [])
  final-reached true adjusted c rest h = (refl, cc, cc)
  final-reached false adjusted c rest h = cc

  outcome-reached :
      (candidate : Candidate Details) (council : Council) (o : CouncilOutcome)
      (c : Candidate Details) (rest : List (Candidate Details))
      → adapter_calls
          (review_outcome mode pre_checks final_checks run_council adapter_fn candidate council
            o).actions
        ≡ c ∷ rest
      → (o ≡ take)
        × (c ≡ tighten_candidate candidate council.max_entry_price council.max_size)
        × ((deterministic_prescreen c final_checks).allowed ≡ true)
        × (rest ≡ [])
  outcome-reached candidate council take c rest h =
      let adjusted = tighten_candidate candidate council.max_entry_price council.max_size in
      let (allowed, same, last) =
        final-reached (deterministic_prescreen adjusted final_checks).allowed adjusted c rest
          (sym (final-calls candidate adjusted) ∙ h) in
      (refl, same, ap (λ x. (deterministic_prescreen x final_checks).allowed) same ∙ allowed, last)
  outcome-reached candidate council hold_off c rest h = cc
  outcome-reached candidate council turn_down c rest h = cc

  council-reached :
      (candidate : Candidate Details) (how : AdmissionMode) (result : Outcome Error Council)
      (c : Candidate Details) (rest : List (Candidate Details))
      → adapter_calls
          (review_council mode pre_checks final_checks run_council adapter_fn candidate how
            result).actions
        ≡ c ∷ rest
      → (council : Council) × (how ≢ shadow)
        × (result ≡ ok council)
        × (council.outcome ≡ take)
        × (c ≡ tighten_candidate candidate council.max_entry_price council.max_size)
        × ((deterministic_prescreen c final_checks).allowed ≡ true)
        × (rest ≡ [])
  council-reached candidate how (raised e) c rest h = cc
  council-reached candidate shadow (ok council) c rest h = cc
  council-reached candidate paper_advisory (ok council) c rest h =
      let (taken, same, allowed, last) =
        outcome-reached candidate council council.outcome c rest h in
      (council, (λ e. cc), refl, taken, same, allowed, last)
  council-reached candidate paper_council (ok council) c rest h =
      let (taken, same, allowed, last) =
        outcome-reached candidate council council.outcome c rest h in
      (council, (λ e. cc), refl, taken, same, allowed, last)

  screened-reached :
      (allowed : Bool) (candidate : Candidate Details) (passed stopped : Review Details Error)
      (c : Candidate Details) (rest : List (Candidate Details))
      → adapter_calls stopped.actions ≡ []
      → adapter_calls (if allowed then passed else stopped).actions ≡ c ∷ rest
      → (allowed ≡ true) × (adapter_calls passed.actions ≡ c ∷ rest)
  screened-reached true candidate passed stopped c rest none_called h = (refl, h)
  screened-reached false candidate passed stopped c rest none_called h = cc

  -- The adapter is called only behind every wall, at most once in a review, and with the candidate
  -- that the council's ceilings have tightened; and this candidate keeps to those ceilings.
  pub review-IsWalled :
      (candidate c : Candidate Details) (rest : List (Candidate Details))
      → adapter_calls (review mode pre_checks final_checks run_council adapter_fn candidate).actions
        ≡ c ∷ rest
      → (council : Council) × IsWalled candidate council c
        × (rest ≡ [])
        × IsWithin c.proposed_price council.max_entry_price
        × IsWithin c.proposed_size council.max_size
  unfolding review deterministic_prescreen tighten_candidate
  review-IsWalled candidate c rest h =
      let (screened, called) =
        screened-reached (deterministic_prescreen candidate pre_checks).allowed candidate
          (review_council mode pre_checks final_checks run_council adapter_fn candidate mode
            (run_council candidate))
          (record {
            status = ok held;
            candidate = candidate;
            stages = initial_screen ∷ [];
            actions = [];
            reason_codes = (deterministic_prescreen candidate pre_checks).reason_codes;
          })
          c rest refl h in
      let (council, in_paper, advised_by, taken, same, allowed, last) =
        council-reached candidate mode (run_council candidate) c rest called in
      (
        council,
        record {
          in_paper = in_paper;
          screened = screen-Passes candidate pre_checks screened;
          advised_by = advised_by;
          says_take = taken;
          tightened = same;
          rechecked = screen-Passes c final_checks allowed;
        },
        last,
        subst (λ x. IsWithin x.proposed_price council.max_entry_price) (sym same)
            (tighten-IsWithin candidate.proposed_price council.max_entry_price),
        subst (λ x. IsWithin x.proposed_size council.max_size) (sym same)
            (tighten-IsWithin candidate.proposed_size council.max_size),
      )

  -- Behind every wall the adapter is called, once, with the tightened candidate.
  pub walled-review :
      (candidate c : Candidate Details) (council : Council)
      → IsWalled candidate council c
      → adapter_calls (review mode pre_checks final_checks run_council adapter_fn candidate).actions
        ≡ c ∷ []
  unfolding review deterministic_prescreen
  walled-review candidate c council w = ground (
    arith,
    Passes-screen candidate pre_checks w.screened,
    Passes-screen c final_checks w.rechecked,
    final-calls candidate c,
  )
