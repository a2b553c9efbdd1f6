-- ===== src/Governance/Halts/Spec.antt =====
-- The contract of `GlobalEmergencyControl` (src/kalshi_bot/risk/governance.py): a switch. The
-- ledger refines it over every sequence of calls, from any number of processes.
use kalshi_trading_bot.Prelude.{
  Bool, true, false, not, ◌&&◌, ◌≡◌, refl, Option, List, [], ◌∷◌, String, arith, is_blank,
  if◌then◌else◌,
}
use kalshi_trading_bot.Governance.Halts.{
  HaltLedger, HaltRequest, ResumeRequest, is_halt_source, blocks_entry, halt, resume,
}

pub data Call : Type 0 where
  halt_call : HaltRequest → Call
  resume_call : ResumeRequest → Call

-- One call's effect on the ledger, whether it returns or raises.
unfoldable pub after : Option String → Call → HaltLedger → HaltLedger
after policy (halt_call request) rows = (halt policy request rows).1
after policy (resume_call request) rows = (resume policy request rows).1

unfoldable pub after_all : Option String → List Call → HaltLedger → HaltLedger
after_all policy [] rows = rows
after_all policy (call ∷ calls) rows = after_all policy calls (after policy call rows)

-- The switch: a halt from a known source sets it, and a resume clears it when it has an operator
-- and a healthy check.
unfoldable pub switch : Call → Bool → Bool
switch (halt_call request) on = if is_halt_source request.source then true else on
switch (resume_call request) on =
    if not (is_blank request.operator) && request.check.healthy then false else on

unfoldable pub switch_all : List Call → Bool → Bool
switch_all [] on = on
switch_all (call ∷ calls) on = switch_all calls (switch call on)

pub blocks_entry-halt :
    (policy : Option String) (request : HaltRequest) (rows : HaltLedger)
    → blocks_entry (halt policy request rows).1
      ≡ (if is_halt_source request.source then true else blocks_entry rows)
unfolding blocks_entry halt
blocks_entry-halt policy request rows = ground arith

pub blocks_entry-resume :
    (policy : Option String) (request : ResumeRequest) (rows : HaltLedger)
    → blocks_entry (resume policy request rows).1 ≡ (
        if not (is_blank request.operator) && request.check.healthy
        then false
        else blocks_entry rows)
unfolding blocks_entry resume
blocks_entry-resume policy request rows = ground arith

pub blocks_entry-after :
    (policy : Option String) (call : Call) (rows : HaltLedger)
    → blocks_entry (after policy call rows) ≡ switch call (blocks_entry rows)
unfolding after switch
blocks_entry-after policy (halt_call request) rows = blocks_entry-halt policy request rows
blocks_entry-after policy (resume_call request) rows = blocks_entry-resume policy request rows

-- After any sequence of calls, entries are blocked exactly when the switch is on: a halt from a
-- known source turns it on, only a resume with an operator and a healthy check turns it off, and
-- a refused call leaves it.
pub blocks_entry-after_all :
    (policy : Option String) (calls : List Call) (rows : HaltLedger)
    → blocks_entry (after_all policy calls rows) ≡ switch_all calls (blocks_entry rows)
unfolding after_all switch_all
blocks_entry-after_all policy [] rows = refl
blocks_entry-after_all policy (call ∷ calls) rows =
    rw (← blocks_entry-after policy call rows)
      (blocks_entry-after_all policy calls (after policy call rows))
