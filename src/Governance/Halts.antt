-- ===== src/Governance/Halts.antt =====
-- `GlobalEmergencyControl` of src/kalshi_bot/risk/governance.py: one durable halt state for the
-- process, read from the newest row of `emergency_halt_records` at every call.
pub mod Spec
pub mod Rows
pub mod Episodes
mod Tests
use Prim.Native.String.{◌++◌}
use kalshi_trading_bot.Prelude.{
  ℕ, Bool, true, false, not, Option, none, some, List, [], ◌∷◌, String, Outcome, ok, raised,
  contains, is_blank, if◌then◌else◌,
}

pub data HaltAction : Type 0 where
  halt_action resume_action : HaltAction

-- `HealthCheck`
pub record HealthCheck : Type 0 where
  pub healthy : Bool
  pub unresolved : List String

-- `HealthCheck.clean`
abbrev pub clean : HealthCheck
clean = record { healthy = true; unresolved = [] }

-- `EmergencyHaltRecord`, without its primary key: the position in the ledger orders the rows. A
-- JSON column is its text.
pub record HaltRow : Type 0 where
  pub halt_id : String
  pub action : HaltAction
  pub source : String
  pub reason : String
  pub created_at : ℕ
  pub paper_run_id : Option String
  pub domain : Option String
  pub asset_id : Option String
  pub operator : Option String
  pub policy_version : Option String
  pub policy_snapshot : Option String
  pub health_snapshot : Option HealthCheck

-- The table, newest row first.
abbrev pub HaltLedger : Type 0
HaltLedger = List HaltRow

-- `HaltStatus`
pub record HaltStatus : Type 0 where
  pub halted : Bool
  pub halt_id : Option String
  pub source : Option String
  pub reason : Option String
  pub since_ts : Option ℕ

abbrev pub not_halted : HaltStatus
not_halted = record {
  halted = false;
  halt_id = none;
  source = none;
  reason = none;
  since_ts = none;
}

pub data HaltError : Type 0 where
  unknown_source : String → HaltError
  no_operator : HaltError
  unresolved_conditions : List String → HaltError

-- `HALT_SOURCES`
abbrev pub halt_sources : List String
halt_sources =
    "operator" ∷ "drawdown" ∷ "daily_loss" ∷ "consecutive_loss" ∷ "liquidation" ∷ "margin_breach"
    ∷ "data_integrity" ∷ "process_signal" ∷ "reconciliation" ∷ []

-- `source in HALT_SOURCES`
unfoldable pub is_halt_source : String → Bool
is_halt_source = contains halt_sources

-- `_latest`
abbrev pub latest : HaltLedger → Option HaltRow
latest [] = none
latest (row ∷ _) = some row

abbrev status_of_row : HaltAction → HaltRow → HaltStatus
status_of_row resume_action row = not_halted
status_of_row halt_action row = record {
  halted = true;
  halt_id = some row.halt_id;
  source = some row.source;
  reason = some row.reason;
  since_ts = some row.created_at;
}

unfoldable pub status : HaltLedger → HaltStatus
status rows = elim (latest rows) [ none ↦ not_halted | some row ↦ status_of_row row.action row ]

unfoldable pub blocks_entry : HaltLedger → Bool
unfolding status
blocks_entry rows = (status rows).halted

-- The arguments of `halt`; `fresh` is what `uuid4().hex` returns and `now` what `now_fn()` returns.
pub record HaltRequest : Type 0 where
  pub source : String
  pub reason : String
  pub paper_run_id : Option String
  pub domain : Option String
  pub asset_id : Option String
  pub operator : Option String
  pub policy_snapshot : Option String
  pub fresh : String
  pub now : ℕ

unfoldable pub halt_row : Option String → HaltRequest → String → String → HaltRow
halt_row policy request id why = record {
  halt_id = id;
  action = halt_action;
  source = request.source;
  reason = why;
  created_at = request.now;
  paper_run_id = request.paper_run_id;
  domain = request.domain;
  asset_id = request.asset_id;
  operator = request.operator;
  policy_version = policy;
  policy_snapshot = request.policy_snapshot;
  health_snapshot = none;
}

-- The id of an active halt. While the status says `halted` it holds one.
abbrev pub id_of : HaltStatus → String
id_of current = elim current.halt_id [ none ↦ "" | some id ↦ id ]

-- The class's `policy_version` is the first argument.
unfoldable pub halt :
    Option String → HaltRequest → HaltLedger → Outcome HaltError HaltStatus × HaltLedger
unfolding halt_row status
halt policy request rows =
    let current = status rows in
    let extra =
      halt_row policy request (id_of current) ("additional_trigger: " ++ request.reason) in
    let first = halt_row policy request request.fresh request.reason in
    if not (is_halt_source request.source)
    then (raised (unknown_source request.source), rows)
    else (if current.halted
        then (ok current, extra ∷ rows)
        else (ok (status (first ∷ rows)), first ∷ rows))

-- The arguments of `resume`; `check` is what the call of `health_check` returns.
pub record ResumeRequest : Type 0 where
  pub operator : String
  pub check : HealthCheck
  pub note : String
  pub now : ℕ

unfoldable pub resume_row : Option String → ResumeRequest → String → HaltRow
resume_row policy request id = record {
  halt_id = id;
  action = resume_action;
  source = "operator";
  reason = request.note;
  created_at = request.now;
  paper_run_id = none;
  domain = none;
  asset_id = none;
  operator = some request.operator;
  policy_version = policy;
  policy_snapshot = none;
  health_snapshot = some clean;
}

unfoldable pub resume :
    Option String → ResumeRequest → HaltLedger → Outcome HaltError HaltStatus × HaltLedger
unfolding resume_row status
resume policy request rows =
    let current = status rows in
    let row = resume_row policy request (id_of current) in
    if is_blank request.operator
    then (raised no_operator, rows)
    else (if not current.halted
        then (ok current, rows)
        else (if not request.check.healthy
            then (raised (unresolved_conditions request.check.unresolved), rows)
            else (ok (status (row ∷ rows)), row ∷ rows)))
