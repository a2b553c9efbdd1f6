-- ===== src/Governance/Lifecycle/Tests.antt =====
-- The lifecycle ledger on concrete calls.
use kalshi_trading_bot.Prelude.{
  ◌↔◌, true, false, none, List, [], ◌∷◌, String, ◌≡◌, ◌≢◌, refl, ok, ap, arith,
}
use text.Mathlib.Text.{◌==◌ as str_eq}
use text.Mathlib.TextEquality.{eq_iff}
use kalshi_trading_bot.Prelude.Text.{contains, is_blank}
use kalshi_trading_bot.Governance.Lifecycle.States.{
  validate_lifecycle, validate_lifecycle-state_name,
}
use kalshi_trading_bot.Governance.Lifecycle.{
  latest, LifecycleState, disabled, observe, paper, blocked, PromotionEvidence, PromoteRequest,
  DemoteRequest, TransitionLedger, promote, demote, promote_row, demote_row, current_state,
  state_of, scope_key, is_demotion_trigger,
}
use kalshi_trading_bot.Governance.Lifecycle.Ladder.{promotion_iff, IsEarned, promote-earned}
use kalshi_trading_bot.Governance.Lifecycle.Demotion.{demotion_iff, IsTriggered, demote-triggered}
use kalshi_trading_bot.Governance.Lifecycle.Trace.{
  Call, promote_call, demote_call, after_all, AllAudited, after_all-AllAudited,
}
use kalshi_trading_bot.Governance.Lifecycle.Readback.{
  AllElsewhere, state_of-after_all_ne, demote_out_of_blocked,
}

abbrev evidence : PromotionEvidence
evidence = record {
  report_id = "r1";
  data_manifest_hash = "m1";
  model_fingerprint = "f1";
  risk_policy_version = "v1";
  gate_results = ("data_coverage", true) ∷ ("risk_policy", true) ∷ [];
}

abbrev to_observe : PromoteRequest
to_observe = record {
  asset_id = "BTC";
  domain = "perp";
  candidate = "trend";
  to_state = "observe";
  operator = "ann";
  evidence = evidence;
  required_gates = "data_coverage" ∷ "risk_policy" ∷ [];
  now = 100;
}

abbrev block : DemoteRequest
block = record {
  asset_id = "BTC";
  domain = "perp";
  candidate = "trend";
  trigger = "poor_coverage";
  reason = "gaps";
  to_state = "blocked";
  operator = none;
  now = 200;
}

abbrev unblock : DemoteRequest
unblock = record {
  asset_id = "BTC";
  domain = "perp";
  candidate = "trend";
  trigger = "operator_request";
  reason = "back";
  to_state = "paper";
  operator = none;
  now = 300;
}

abbrev calls : List Call
calls = promote_call to_observe ∷ demote_call block ∷ []

abbrev blocked_rows : TransitionLedger
blocked_rows = demote_row block observe blocked ∷ []

observe-IsEarned : IsEarned to_observe disabled observe
unfolding is_blank
observe-IsEarned = record {
  next_stage = refl;
  named = refl;
  fingerprinted = record { reported = refl; on_data = refl; on_model = refl; on_policy = refl };
  gates_pass = (refl, (refl, tt));
}

reads_observe : validate_lifecycle "observe" ≡ ok observe
reads_observe = validate_lifecycle-state_name observe

reads_blocked : validate_lifecycle "blocked" ≡ ok blocked
reads_blocked = validate_lifecycle-state_name blocked

reads_paper : validate_lifecycle "paper" ≡ ok paper
reads_paper = validate_lifecycle-state_name paper

starts_disabled : current_state disabled "BTC" "perp" "trend" [] ≡ ok disabled
unfolding current_state state_of latest
starts_disabled = refl

promoted : (promote disabled to_observe []).0 ≡ ok observe
promoted =
    ap (λ r. r.0)
      (promote-earned disabled to_observe [] disabled observe reads_observe starts_disabled
        observe-IsEarned)

abbrev observe_rows : TransitionLedger
observe_rows = promote_row to_observe disabled observe ∷ []

in_observe : current_state disabled "BTC" "perp" "trend" observe_rows ≡ ok observe
unfolding current_state state_of latest promote_row scope_key validate_lifecycle
in_observe = refl

block-IsTriggered : IsTriggered block observe blocked
unfolding is_demotion_trigger contains
block-IsTriggered = record { known = refl; backward = refl }

block_made :
    demote disabled block observe_rows
    ≡ (ok blocked, demote_row block observe blocked ∷ observe_rows)
block_made =
    demote-triggered disabled block observe_rows observe blocked reads_blocked in_observe
      block-IsTriggered

after_all-AllAudited_example : AllAudited disabled (after_all disabled calls [])
after_all-AllAudited_example = after_all-AllAudited disabled calls [] tt

differs : (s t : String) → str_eq s t ≡ false → s ≢ t
differs s t ne e = ground (arith, eq_iff s t)

elsewhere : AllElsewhere (scope_key "ETH" "perp" "trend") calls
unfolding scope_key
elsewhere = let ne = differs "BTC:perp:trend" "ETH:perp:trend" refl in (ne, (ne, tt))

state_of-after_all_ne_example :
    state_of disabled (scope_key "ETH" "perp" "trend") (after_all disabled calls [])
    ≡ state_of disabled (scope_key "ETH" "perp" "trend") []
state_of-after_all_ne_example =
    state_of-after_all_ne disabled calls (scope_key "ETH" "perp" "trend") [] elsewhere

in_blocked : current_state disabled "BTC" "perp" "trend" blocked_rows ≡ ok blocked
unfolding current_state state_of latest demote_row scope_key validate_lifecycle
in_blocked = refl

known_request : is_demotion_trigger "operator_request" ≡ true
unfolding is_demotion_trigger contains
known_request = refl

demote_out_of_blocked_example :
    ((demote disabled unblock blocked_rows).0 ≡ ok paper)
    × (current_state disabled "BTC" "perp" "trend" (demote disabled unblock blocked_rows).1
        ≡ ok paper)
demote_out_of_blocked_example =
    demote_out_of_blocked disabled unblock blocked_rows paper known_request reads_paper in_blocked

promotion_iff_example : (promote disabled to_observe [] ≡ (ok observe, observe_rows)) ↔ (
    (current : LifecycleState) × (validate_lifecycle "observe" ≡ ok observe)
    × (current_state disabled "BTC" "perp" "trend" [] ≡ ok current)
    × IsEarned to_observe current observe
    × (promote_row to_observe current observe ∷ [] ≡ observe_rows))
promotion_iff_example = promotion_iff disabled to_observe [] observe_rows observe

demotion_iff_example :
    (demote disabled block observe_rows
      ≡ (ok blocked, demote_row block observe blocked ∷ observe_rows))
    ↔ ((current : LifecycleState) × (validate_lifecycle "blocked" ≡ ok blocked)
        × (current_state disabled "BTC" "perp" "trend" observe_rows ≡ ok current)
        × IsTriggered block current blocked
        × (demote_row block current blocked ∷ observe_rows
            ≡ demote_row block observe blocked ∷ observe_rows))
demotion_iff_example =
    demotion_iff disabled block observe_rows (demote_row block observe blocked ∷ observe_rows)
      blocked
