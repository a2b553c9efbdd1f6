-- ===== src/Governance/Halts/Episodes.antt =====
-- One halt episode of `GlobalEmergencyControl` (src/kalshi_bot/risk/governance.py): what a second
-- trigger keeps, and what ends it.
use Prim.Native.String.{◌++◌}
use kalshi_trading_bot.Prelude.{true, false, ◌≡◌, Option, none, some, String, arith, ok}
use kalshi_trading_bot.Governance.Halts.{
  HaltLedger, HaltRequest, HaltStatus, is_halt_source, status, halt, resume, id_of,
}
use kalshi_trading_bot.Governance.Halts.Spec.{Call, halt_call, resume_call, after}

-- A status is halted exactly when it carries the id of its episode.
pub record IsCoherent (current : HaltStatus) : Type 0 where
  pub open_has_id : current.halted ≡ true → current.halt_id ≡ some (id_of current)
  pub closed_has_none : current.halted ≡ false → current.halt_id ≡ none

pub status-IsCoherent : (rows : HaltLedger) → IsCoherent (status rows)
unfolding status
status-IsCoherent rows = ground arith

-- As long as a halt lasts, every call keeps its id: a second halt, whatever its source, and a
-- resume that is refused.
pub halt_id-after :
    (policy : Option String) (call : Call) (rows : HaltLedger)
    → (status rows).halted ≡ true
    → (status (after policy call rows)).halted ≡ true
    → (status (after policy call rows)).halt_id ≡ (status rows).halt_id
unfolding after halt resume
halt_id-after policy (halt_call request) rows h k = ground (arith, status-IsCoherent rows)
halt_id-after policy (resume_call request) rows h k = ground (arith, status-IsCoherent rows)

-- A second halt from a known source returns the status of the first one, but the status that is
-- read afterwards has the second one's source, its reason behind a prefix, and its time.
pub additional_trigger_moves_clock :
    (policy : Option String) (request : HaltRequest) (rows : HaltLedger)
    → is_halt_source request.source ≡ true
    → (status rows).halted ≡ true
    → let (result, rows') = halt policy request rows in
      (result ≡ ok (status rows))
      × ((status rows').halt_id ≡ (status rows).halt_id)
      × ((status rows').source ≡ some request.source)
      × ((status rows').reason ≡ some ("additional_trigger: " ++ request.reason))
      × ((status rows').since_ts ≡ some request.now)
unfolding halt
additional_trigger_moves_clock policy request rows known on = ground (arith, status-IsCoherent rows)
