-- ===== src/Agents/CouncilLifecycle.antt =====
-- `CouncilLifecycleStore` of src/kalshi_bot/agents/lifecycle.py, with its rows
-- (`CouncilProfileLifecycleRecord` of src/kalshi_bot/storage/models.py), newest first.
pub mod Promotions
pub mod Climb
mod Tests
use text.Mathlib.Text.{◌==◌ as str_eq}
use kalshi_trading_bot.Prelude.{
  ℕ, suc, ◌+◌, Bool, true, false, not, ◌&&◌, ◌||◌, Option, none, some, List, [], ◌∷◌, String, ltb,
  leb, ◌==◌, if◌then◌else◌, Outcome, ok, raised, is_blank, is_empty_text, all, find?, is_empty,
  select,
}

pub data ProfileLifecycle : Type 0 where
  disabled fixture replay shadow paper_advisory paper_council : ProfileLifecycle

-- `_ORDER`
abbrev pub order_of : ProfileLifecycle → ℕ
order_of disabled = 0
order_of fixture = 1
order_of replay = 2
order_of shadow = 3
order_of paper_advisory = 4
order_of paper_council = 5

-- The state that a text names: a key of `_ORDER`.
unfoldable pub named_state : String → Option ProfileLifecycle
named_state name =
    if str_eq name "disabled"
    then some disabled
    else (if str_eq name "fixture"
        then some fixture
        else (if str_eq name "replay"
            then some replay
            else (if str_eq name "shadow"
                then some shadow
                else (if str_eq name "paper_advisory"
                    then some paper_advisory
                    else (if str_eq name "paper_council" then some paper_council else none)))))

pub record PromotionReport : Type 0 where
  pub report_id : String
  pub profile_id : String
  pub profile_version : String
  pub frozen : Bool
  pub registered_at : ℕ
  pub heldout_completed_at : ℕ
  pub gate_results : List (String × Bool)

unfoldable pub eligible : PromotionReport → Bool
eligible report =
    report.frozen
    && not (is_empty_text report.report_id)
    && not (is_empty_text report.profile_id)
    && not (is_empty_text report.profile_version)
    && ltb report.registered_at report.heldout_completed_at
    && not (is_empty report.gate_results)
    && all (λ (gate : String × Bool). gate.1) report.gate_results

pub data Direction : Type 0 where
  promotion demotion : Direction

pub record LifecycleRow : Type 0 where
  pub profile_id : String
  pub profile_version : String
  pub direction : Direction
  pub from_state : ProfileLifecycle
  pub to_state : ProfileLifecycle
  pub operator : Option String
  pub report_id : Option String
  pub reason : String
  pub gate_results : List (String × Bool)
  pub created_at : ℕ

pub data ProfilePromotionRefused : Type 0 where
  no_operator other_profile not_eligible unsupported_state not_one_step not_earlier :
      ProfilePromotionRefused

-- `default` is the store's `default_state`.
abbrev pub state_or : ProfileLifecycle → Option LifecycleRow → ProfileLifecycle
state_or default none = default
state_or default (some row) = row.to_state

unfoldable pub current_state : ProfileLifecycle → String → List LifecycleRow → ProfileLifecycle
current_state default profile_id rows =
    state_or default (find? (λ row. str_eq row.profile_id profile_id) rows)

-- The arguments of `promote`; `now` is what `now_fn()` returns.
pub record PromoteRequest : Type 0 where
  pub profile_id : String
  pub profile_version : String
  pub to_state : String
  pub operator : String
  pub report : PromotionReport
  pub now : ℕ

abbrev pub promoted_row : PromoteRequest → ProfileLifecycle → ProfileLifecycle → LifecycleRow
promoted_row request current target = record {
  profile_id = request.profile_id;
  profile_version = request.profile_version;
  direction = promotion;
  from_state = current;
  to_state = target;
  operator = some request.operator;
  report_id = some request.report.report_id;
  reason = "frozen promotion report passed";
  gate_results = request.report.gate_results;
  created_at = request.now;
}

-- The checks before the state that is asked for is looked at.
abbrev pub request_refusal : PromoteRequest → Option ProfilePromotionRefused
request_refusal request =
    if is_blank request.operator
    then some no_operator
    else (if not (str_eq request.report.profile_id request.profile_id)
          || not (str_eq request.report.profile_version request.profile_version)
        then some other_profile
        else (if not (eligible request.report) then some not_eligible else none))

abbrev pub promote_known :
    Option ProfileLifecycle
    → ProfileLifecycle
    → PromoteRequest
    → List LifecycleRow
    → Outcome ProfilePromotionRefused ProfileLifecycle × List LifecycleRow
promote_known none current request rows = (raised unsupported_state, rows)
promote_known (some target) current request rows =
    if order_of target == order_of current + 1
    then (ok target, promoted_row request current target ∷ rows)
    else (raised not_one_step, rows)

abbrev pub promote_checked :
    Option ProfilePromotionRefused
    → ProfileLifecycle
    → PromoteRequest
    → List LifecycleRow
    → Outcome ProfilePromotionRefused ProfileLifecycle × List LifecycleRow
promote_checked (some refusal) current request rows = (raised refusal, rows)
promote_checked none current request rows =
    promote_known (named_state request.to_state) current request rows

unfoldable pub promote :
    ProfileLifecycle
    → PromoteRequest
    → List LifecycleRow
    → Outcome ProfilePromotionRefused ProfileLifecycle × List LifecycleRow
promote default request rows =
    promote_checked (request_refusal request) (current_state default request.profile_id rows)
      request rows

-- The arguments of `demote`.
pub record DemoteRequest : Type 0 where
  pub profile_id : String
  pub profile_version : String
  pub to_state : String
  pub reason : String
  pub operator : Option String
  pub now : ℕ

abbrev pub demoted_row : DemoteRequest → ProfileLifecycle → ProfileLifecycle → LifecycleRow
demoted_row request current target = record {
  profile_id = request.profile_id;
  profile_version = request.profile_version;
  direction = demotion;
  from_state = current;
  to_state = target;
  operator = request.operator;
  report_id = none;
  reason = request.reason;
  gate_results = [];
  created_at = request.now;
}

abbrev pub demote_known :
    Option ProfileLifecycle
    → ProfileLifecycle
    → DemoteRequest
    → List LifecycleRow
    → Outcome ProfilePromotionRefused ProfileLifecycle × List LifecycleRow
demote_known none current request rows = (raised not_earlier, rows)
demote_known (some target) current request rows =
    if leb (order_of current) (order_of target)
    then (raised not_earlier, rows)
    else (ok target, demoted_row request current target ∷ rows)

unfoldable pub demote :
    ProfileLifecycle
    → DemoteRequest
    → List LifecycleRow
    → Outcome ProfilePromotionRefused ProfileLifecycle × List LifecycleRow
demote default request rows =
    demote_known (named_state request.to_state) (current_state default request.profile_id rows)
      request rows
