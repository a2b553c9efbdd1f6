-- ===== src/Governance/Halts/Rows.antt =====
-- The rows that `GlobalEmergencyControl` (src/kalshi_bot/risk/governance.py) writes: none is ever
-- changed, and each shows what allowed it.
use kalshi_trading_bot.Prelude.{
  true, false, ◌≡◌, refl, inl, inr, Option, some, List, [], ◌∷◌, String, is_blank, Bool-cases, All,
  Extends, Extends-refl, Extends-trans, Appends, Appends-Extends, Appends-All,
}
use kalshi_trading_bot.Governance.Halts.{
  HaltLedger, HaltRow, halt_action, resume_action, HaltRequest, ResumeRequest, clean,
  is_halt_source, status, halt, resume,
}
use kalshi_trading_bot.Governance.Halts.Spec.{Call, halt_call, resume_call, after, after_all}

-- What a row must show: a halt row a known source; a resume row an operator that is not blank and
-- a clean health check.
abbrev pub IsLegal : HaltRow → Type 0
IsLegal row = elim row.action [
  | halt_action ↦ is_halt_source row.source ≡ true
  | resume_action ↦
      (o : String) × (row.operator ≡ some o)
      × (is_blank o ≡ false)
      × (row.health_snapshot ≡ some clean)
]

halt-Appends :
    (policy : Option String) (request : HaltRequest) (rows : HaltLedger)
    → Appends IsLegal rows (halt policy request rows).1
unfolding halt
halt-Appends policy request rows = elim (Bool-cases (is_halt_source request.source)) [
  | inr unknown ↦ rw unknown (inl refl)
  | inl known ↦ elim (Bool-cases (status rows).halted) [
    | inl on ↦ rw (known, on) (inr (_, refl, known))
    | inr off ↦ rw (known, off) (inr (_, refl, known))
  ]
]

resume-Appends :
    (policy : Option String) (request : ResumeRequest) (rows : HaltLedger)
    → Appends IsLegal rows (resume policy request rows).1
unfolding resume
resume-Appends policy request rows = elim (Bool-cases (is_blank request.operator)) [
  | inl blank ↦ rw blank (inl refl)
  | inr named ↦ elim (Bool-cases (status rows).halted) [
    | inr off ↦ rw (named, off) (inl refl)
    | inl on ↦ elim (Bool-cases request.check.healthy) [
      | inl fit ↦ rw (named, on, fit) (inr (_, refl, (request.operator, refl, named, refl)))
      | inr sick ↦ rw (named, on, sick) (inl refl)
    ]
  ]
]

after-Appends :
    (policy : Option String) (call : Call) (rows : HaltLedger)
    → Appends IsLegal rows (after policy call rows)
unfolding after
after-Appends policy (halt_call request) rows = halt-Appends policy request rows
after-Appends policy (resume_call request) rows = resume-Appends policy request rows

-- The ledger is append-only: any sequence of calls leaves every earlier row in place, and in
-- order.
pub after_all-Extends :
    (policy : Option String) (calls : List Call) (rows : HaltLedger)
    → Extends rows (after_all policy calls rows)
unfolding after_all
after_all-Extends policy [] rows = Extends-refl rows
after_all-Extends policy (call ∷ calls) rows =
    let next = after policy call rows in
    Extends-trans rows next (after_all policy calls next)
      (Appends-Extends IsLegal rows next (after-Appends policy call rows))
      (after_all-Extends policy calls next)

-- Over any sequence of calls, every halt row names a known source, and every resume row an
-- operator that is not blank and a clean health check, if that held of the rows at the start.
pub after_all-All-IsLegal :
    (policy : Option String) (calls : List Call) (rows : HaltLedger)
    → All IsLegal rows
    → All IsLegal (after_all policy calls rows)
unfolding after_all
after_all-All-IsLegal policy [] rows h = h
after_all-All-IsLegal policy (call ∷ calls) rows h =
    let next = after policy call rows in
    after_all-All-IsLegal policy calls next
      (Appends-All IsLegal rows next (after-Appends policy call rows) h)
