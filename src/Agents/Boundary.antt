-- ===== src/Agents/Boundary.antt =====
-- The boundary between a strategy's candidate and a paper adapter
-- (src/kalshi_bot/agents/admission.py). Prices and sizes are numbers of smallest units. The council and
-- the adapter are parameters, and may raise; what the boundary does to the outside is the list of
-- its calls, in order.

pub mod Walls
mod Tests
use Prim.Native.Nat.{min}
use text.Mathlib.Text.{◌==◌ as str_eq}
use kalshi_trading_bot.Prelude.{
  ℕ, Bool, true, false, not, Option, none, some, List, [], ◌∷◌, String, if◌then◌else◌, Outcome, ok,
  raised, get_or, is_empty, map, is_empty_text,
}

-- The candidate's fields that the boundary reads, and the rest of them.
pub record Candidate (Details : Type 0) : Type 0 where
  pub proposed_price : Option ℕ
  pub proposed_size : Option ℕ
  pub details : Details

pub record AdmissionCheck : Type 0 where
  pub name : String
  pub passed : Bool
  pub reason : Option String

pub data WallStatus : Type 0 where
  pass hold reject : WallStatus

pub record AdmissionWallResult : Type 0 where
  pub allowed : Bool
  pub status : WallStatus
  pub reason_codes : List String
  pub checks : List AdmissionCheck

pub data AdmissionMode : Type 0 where
  shadow paper_advisory paper_council : AdmissionMode

pub data CouncilOutcome : Type 0 where
  take hold_off turn_down : CouncilOutcome

-- What the boundary reads of a `CouncilRunResult`.
pub record Council : Type 0 where
  pub outcome : CouncilOutcome
  pub max_entry_price : Option ℕ
  pub max_size : Option ℕ

pub data ReviewStatus : Type 0 where
  shadow_recorded held adapter_called : ReviewStatus

pub data Stage : Type 0 where
  initial_screen council_recommendation final_recheck adapter_decision : Stage

-- What the boundary calls.
pub data Action (Details : Type 0) : Type 0 where
  ran_council : Candidate Details → Action Details
  called_adapter : Candidate Details → Action Details

-- `check.reason or check.name`
abbrev pub failure_code : AdmissionCheck → String
failure_code check = elim check.reason [
  | none ↦ check.name
  | some reason ↦ if is_empty_text reason then check.name else reason
]

abbrev pub failures : List AdmissionCheck → List String
failures [] = []
failures (check ∷ checks) =
    let rest = failures checks in if check.passed then rest else failure_code check ∷ rest

unfoldable pub validate_council_mode : String → Option AdmissionMode
validate_council_mode mode =
    if str_eq mode "shadow"
    then some shadow
    else (if str_eq mode "paper_advisory"
        then some paper_advisory
        else (if str_eq mode "paper_council" then some paper_council else none))

-- `limit if value is None else min(value, limit)`, where there is a limit.
abbrev pub tighten : Option ℕ → Option ℕ → Option ℕ
tighten value none = value
tighten none (some limit) = some limit
tighten (some value) (some limit) = some (min value limit)

-- `model_copy` does not validate the new price and size.
module _ {Details : Type 0} where
  unfoldable pub deterministic_prescreen :
      Candidate Details → List (Candidate Details → AdmissionCheck) → AdmissionWallResult
  deterministic_prescreen candidate checks =
      let results = map (λ check. check candidate) checks in
      let codes = failures results in
      record {
        allowed = is_empty codes;
        status = if is_empty codes then pass else hold;
        reason_codes = codes;
        checks = results;
      }

  unfoldable pub tighten_candidate : Candidate Details → Option ℕ → Option ℕ → Candidate Details
  tighten_candidate candidate max_entry_price max_size = record candidate {
    proposed_price = tighten candidate.proposed_price max_entry_price;
    proposed_size = tighten candidate.proposed_size max_size;
  }

-- A review: its outcome, the candidate as it then is, the stages that were audited and the calls
-- that were made, in order.
pub record Review (Details Error : Type 0) : Type 0 where
  pub status : Outcome Error ReviewStatus
  pub candidate : Candidate Details
  pub stages : List Stage
  pub actions : List (Action Details)
  pub reason_codes : List String

-- The end of a review, by what the adapter does.
abbrev pub adapted :
    {Details Adapted Error : Type 0}
    → Candidate Details
    → Candidate Details
    → Outcome Error Adapted
    → Review Details Error
adapted original adjusted (ok _) = record {
  status = ok adapter_called;
  candidate = adjusted;
  stages = initial_screen ∷ council_recommendation ∷ final_recheck ∷ adapter_decision ∷ [];
  actions = ran_council original ∷ called_adapter adjusted ∷ [];
  reason_codes = [];
}
adapted original adjusted (raised error) = record {
  status = raised error;
  candidate = adjusted;
  stages = initial_screen ∷ council_recommendation ∷ final_recheck ∷ [];
  actions = ran_council original ∷ called_adapter adjusted ∷ [];
  reason_codes = [];
}

abbrev pub advised :
    {Details Error : Type 0} → Candidate Details → ReviewStatus → String → Review Details Error
advised candidate status reason = record {
  status = ok status;
  candidate = candidate;
  stages = initial_screen ∷ council_recommendation ∷ [];
  actions = ran_council candidate ∷ [];
  reason_codes = reason ∷ [];
}

-- The boundary's two groups of checks, its mode, and the two callables that `review` is given.
module _ {Details Adapted Error : Type 0} (mode : AdmissionMode)
    (pre_checks final_checks : List (Candidate Details → AdmissionCheck))
    (run_council : Candidate Details → Outcome Error Council)
    (adapter_fn : Candidate Details → Outcome Error Adapted) where
  abbrev pub review_final : Candidate Details → Candidate Details → Review Details Error
  review_final original adjusted =
      let final = deterministic_prescreen adjusted final_checks in
      if final.allowed then adapted original adjusted (adapter_fn adjusted) else record {
        status = ok held;
        candidate = adjusted;
        stages = initial_screen ∷ council_recommendation ∷ final_recheck ∷ [];
        actions = ran_council original ∷ [];
        reason_codes = final.reason_codes;
      }

  abbrev pub review_outcome : Candidate Details → Council → CouncilOutcome → Review Details Error
  review_outcome candidate council hold_off = advised candidate held "council_hold"
  review_outcome candidate council turn_down = advised candidate held "council_reject"
  review_outcome candidate council take =
      review_final candidate (tighten_candidate candidate council.max_entry_price council.max_size)

  abbrev pub review_council :
      Candidate Details → AdmissionMode → Outcome Error Council → Review Details Error
  review_council candidate how (raised error) = record {
    status = raised error;
    candidate = candidate;
    stages = initial_screen ∷ [];
    actions = ran_council candidate ∷ [];
    reason_codes = [];
  }
  review_council candidate shadow (ok council) =
      advised candidate shadow_recorded "shadow_no_paper_influence"
  review_council candidate _ (ok council) = review_outcome candidate council council.outcome

  unfoldable pub review : Candidate Details → Review Details Error
  review candidate =
      let pre = deterministic_prescreen candidate pre_checks in
      if pre.allowed then review_council candidate mode (run_council candidate) else record {
        status = ok held;
        candidate = candidate;
        stages = initial_screen ∷ [];
        actions = [];
        reason_codes = pre.reason_codes;
      }
