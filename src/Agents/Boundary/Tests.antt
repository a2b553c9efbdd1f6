-- ===== src/Agents/Boundary/Tests.antt =====
-- The boundary on a concrete candidate.
use kalshi_trading_bot.Prelude.{
  ℕ, none, some, List, [], ◌∷◌, String, ◌≡◌, refl, Outcome, ok, is_some,
}
use kalshi_trading_bot.Agents.Boundary.{
  Candidate, AdmissionCheck, Council, take, paper_council, tighten_candidate,
}
use kalshi_trading_bot.Agents.Boundary.Walls.{
  walled-review, IsWalled, IsWithin, review-IsWalled, walled-review,
}

abbrev candidate : Candidate String
candidate = record { proposed_price = some 60; proposed_size = none; details = "KXBTC" }

abbrev has_size : Candidate String → AdmissionCheck
has_size c = record { name = "size"; passed = is_some c.proposed_size; reason = none }

abbrev has_price : Candidate String → AdmissionCheck
has_price c = record { name = "price"; passed = is_some c.proposed_price; reason = none }

abbrev council : Council
council = record { outcome = take; max_entry_price = some 55; max_size = some 10 }

abbrev run_council : Candidate String → Outcome String Council
run_council c = ok council

abbrev adapter : Candidate String → Outcome String ℕ
adapter c = ok 1

abbrev adjusted : Candidate String
adjusted = record { proposed_price = some 55; proposed_size = some 10; details = "KXBTC" }

walled :
    IsWalled paper_council
      (has_price ∷ [])
      (has_size ∷ [])
      run_council
      adapter
      candidate
      council
      adjusted
unfolding tighten_candidate
walled = record {
  in_paper = λ e. cc;
  screened = (refl, tt);
  advised_by = refl;
  says_take = refl;
  tightened = refl;
  rechecked = (refl, tt);
}

review-IsWalled_example :
    (c : Council) × IsWalled paper_council
      (has_price ∷ [])
      (has_size ∷ [])
      run_council
      adapter
      candidate
      c
      adjusted
    × (◌≡◌ {A = List (Candidate String)} [] [])
    × IsWithin (some 55) c.max_entry_price
    × IsWithin (some 10) c.max_size
review-IsWalled_example =
    review-IsWalled paper_council (has_price ∷ []) (has_size ∷ []) run_council adapter candidate
      adjusted []
      (walled-review paper_council (has_price ∷ []) (has_size ∷ []) run_council adapter candidate
        adjusted council walled)
