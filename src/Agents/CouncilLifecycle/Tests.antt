-- ===== src/Agents/CouncilLifecycle/Tests.antt =====
-- The lifecycle of a concrete profile.
use kalshi_trading_bot.Prelude.{◌≤◌, List, [], ◌∷◌, none, true, false, ◌≡◌, ◌↔◌, refl, ok, raised}
use kalshi_trading_bot.Prelude.Text.{is_blank}
use kalshi_trading_bot.Agents.CouncilLifecycle.{
  PromotionReport, ProfilePromotionRefused, PromoteRequest, DemoteRequest, disabled, fixture,
  paper_council, eligible, promote, promoted_row, current_state, order_of,
}
use kalshi_trading_bot.Agents.CouncilLifecycle.Promotions.{
  IsPromotable, promote_iff, Call, promotes, demotes, after_all, promotions, stage_is_earned,
}
use kalshi_trading_bot.Agents.CouncilLifecycle.Climb.{climb, council_is_reachable}

abbrev report : PromotionReport
report = record {
  report_id = "r1";
  profile_id = "btc";
  profile_version = "1";
  frozen = true;
  registered_at = 10;
  heldout_completed_at = 20;
  gate_results = ("net", true) ∷ [];
}

abbrev request : PromoteRequest
request = record {
  profile_id = "btc";
  profile_version = "1";
  to_state = "fixture";
  operator = "alice";
  report = report;
  now = 30;
}

abbrev back : DemoteRequest
back = record {
  profile_id = "btc";
  profile_version = "1";
  to_state = "disabled";
  reason = "stale";
  operator = none;
  now = 40;
}

promote_iff_example :
    (((promote disabled request []).0 ≡ ok fixture) ↔ IsPromotable disabled request [] fixture)
    × (IsPromotable disabled request [] fixture
        → (promote disabled request []).1
          ≡ promoted_row request (current_state disabled "btc" []) fixture ∷ [])
    × ((refusal : ProfilePromotionRefused)
        → (promote disabled request []).0 ≡ raised refusal
        → (promote disabled request []).1 ≡ [])
promote_iff_example = promote_iff disabled request [] fixture

abbrev calls : List Call
calls = promotes request ∷ demotes back ∷ promotes request ∷ []

stage_is_earned_example :
    order_of (current_state disabled "btc" (after_all disabled calls []))
    ≤ promotions "btc" (after_all disabled calls [])
stage_is_earned_example = stage_is_earned "btc" calls

not_blank : is_blank "alice" ≡ false
unfolding is_blank
not_blank = refl

is_eligible : eligible report ≡ true
unfolding eligible
is_eligible = refl

council_is_reachable_example :
    current_state disabled "btc" (climb disabled request 5 []) ≡ paper_council
unfolding current_state
council_is_reachable_example =
    council_is_reachable disabled request [] not_blank refl refl is_eligible
