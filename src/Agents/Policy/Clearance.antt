-- ===== src/Agents/Policy/Clearance.antt =====
-- When `calculate_policy` (src/kalshi_bot/agents/coordinator.py) lets a council go on to its master.
use kalshi_trading_bot.Prelude.{
  ◌≡◌, ◌↔◌, refl, Bool, true, false, ◌&&◌, Option, none, some, List, [], ◌∷◌, ◌++◌, All, String,
  arith, inl, inr, Bool-cases, if◌then◌else◌, is_empty, select,
}
use kalshi_trading_bot.Agents.Contracts.{
  AgentRole, researcher, bull_thesis, bear_thesis, skeptic, execution_liquidity, rules_settlement,
  portfolio_risk, master_synthesizer, is_abstention, is_block, is_blocking, is_invalid,
  AgentVerdict, RoleConfig, can_synthesize,
}
use kalshi_trading_bot.Agents.Validation.{error_if}
use kalshi_trading_bot.Agents.Policy.{
  role_order, sorted_specialists, verdict_of, is_critical_role, is_incomplete, vetoes_by, vetoes_of,
  missing_of, takes_side, calculate_policy,
}

-- A verdict that neither is missing nor stops the council.
abbrev pub IsPassing : Option AgentVerdict → Type 0
IsPassing verdict =
    (v : AgentVerdict) × (verdict ≡ some v)
    × (is_invalid v.parse_status ≡ false)
    × (is_block v.decision ≡ false)
    × (is_blocking v.severity ≡ false)

abbrev pub IsDirectional : Option AgentVerdict → Type 0
IsDirectional verdict =
    (v : AgentVerdict) × (verdict ≡ some v)
    × (is_invalid v.parse_status ≡ false)
    × (is_abstention v.decision ≡ false)

-- Both directions are argued, and every critical specialist's last verdict is valid and blocks
-- nothing.
pub record IsCleared (configs : List RoleConfig) (verdicts : List (Option AgentVerdict))
    : Type 0 where
  pub bull : IsDirectional (verdict_of bull_thesis verdicts)
  pub bear : IsDirectional (verdict_of bear_thesis verdicts)
  pub critical_roles :
      (role : AgentRole)
      → is_critical_role role configs ≡ true
      → IsPassing (verdict_of role verdicts)

takes_side-IsDirectional :
    (verdict : Option AgentVerdict) → takes_side verdict ≡ true → IsDirectional verdict
takes_side-IsDirectional none h = cc
takes_side-IsDirectional (some v) h = (v, refl, ground arith, ground arith)

IsDirectional-takes_side :
    (verdict : Option AgentVerdict) → IsDirectional verdict → takes_side verdict ≡ true
IsDirectional-takes_side verdict (v, e, a, b) = ground arith

select-empty :
    (test : AgentRole → Bool) (roles : List AgentRole)
    → (is_empty (select test roles) ≡ true) ↔ All (λ role. test role ≡ false) roles
select-empty test [] = ((λ _. tt), (λ _. refl))
select-empty test (role ∷ roles) =
    let (from, to) = select-empty test roles in (ground arith, ground arith)

empty_if :
    (b : Bool) (xs ys : List String)
    → (is_empty (if b then xs ++ ys else ys) ≡ true)
      ↔ ((b ≡ true → is_empty xs ≡ true) × (is_empty ys ≡ true))
empty_if true [] ys = ((λ h. ((λ _. refl), h)), (λ (_, h). h))
empty_if true (x ∷ xs) ys = ((λ h. cc), (λ (h, _). h refl))
empty_if false xs ys = ((λ h. ((λ e. cc), h)), (λ (_, h). h))

veto-free :
    (role : AgentRole) (verdict : Option AgentVerdict)
    → is_incomplete verdict ≡ false
    → is_empty (vetoes_by role verdict) ≡ true
    → IsPassing verdict
unfolding error_if
veto-free role none complete free = cc
veto-free role (some v) complete free = (v, refl, ground arith, ground arith, ground arith)

IsPassing-complete :
    (verdict : Option AgentVerdict) → IsPassing verdict → is_incomplete verdict ≡ false
IsPassing-complete verdict (v, e, valid, _, _) = rw e valid

IsPassing-free :
    (role : AgentRole) (verdict : Option AgentVerdict)
    → IsPassing verdict
    → is_empty (vetoes_by role verdict) ≡ true
unfolding error_if
IsPassing-free role verdict (v, e, _, decided, severe) = rw (e, decided, severe) refl

master_uncritical :
    (configs : List RoleConfig) → is_critical_role master_synthesizer configs ≡ false
unfolding is_critical_role
master_uncritical [] = refl
master_uncritical (config ∷ configs) = ground (arith, master_uncritical configs)

module _ (configs : List RoleConfig) (verdicts : List (Option AgentVerdict)) where
  abbrev Complete : AgentRole → Type 0
  Complete role =
      (is_critical_role role configs && is_incomplete (verdict_of role verdicts)) ≡ false

  abbrev NoVeto : AgentRole → Type 0
  NoVeto role =
      is_critical_role role configs ≡ true
      → is_empty (vetoes_by role (verdict_of role verdicts)) ≡ true

  vetoes-empty :
      (roles : List AgentRole)
      → (is_empty (vetoes_of roles configs verdicts) ≡ true) ↔ All NoVeto roles
  unfolding vetoes_of
  vetoes-empty [] = ((λ _. tt), (λ _. refl))
  vetoes-empty (role ∷ roles) =
      let (from, to) = vetoes-empty roles in
      let first = vetoes_by role (verdict_of role verdicts) in
      let step =
        empty_if (is_critical_role role configs) first (vetoes_of roles configs verdicts) in
      (
        (λ h. let (here, rest) = step.0 h in (here, from rest)),
        (λ (here, rest). step.1 (here, to rest)),
      )

  passing :
      (role : AgentRole)
      → Complete role
      → NoVeto role
      → is_critical_role role configs ≡ true
      → IsPassing (verdict_of role verdicts)
  passing role complete no_veto crit =
      veto-free role (verdict_of role verdicts) (ground arith) (no_veto crit)

  passing-Complete :
      (role : AgentRole)
      → (is_critical_role role configs ≡ true → IsPassing (verdict_of role verdicts))
      → Complete role
  passing-Complete role pass = elim (Bool-cases (is_critical_role role configs)) [
    | inl crit ↦ rw crit (IsPassing-complete (verdict_of role verdicts) (pass crit))
    | inr other ↦ rw other refl
  ]

  passing-NoVeto :
      (role : AgentRole)
      → (is_critical_role role configs ≡ true → IsPassing (verdict_of role verdicts))
      → NoVeto role
  passing-NoVeto role pass crit = IsPassing-free role (verdict_of role verdicts) (pass crit)

  missing-empty : (is_empty (missing_of configs verdicts) ≡ true) ↔ All Complete role_order
  unfolding missing_of
  missing-empty =
      select-empty
        (λ role. is_critical_role role configs && is_incomplete (verdict_of role verdicts))
        role_order

  unvetoed : All NoVeto sorted_specialists → (role : AgentRole) → NoVeto role
  unvetoed (a, (b, (c, (d, (e, (f, (g, _))))))) bear_thesis = a
  unvetoed (a, (b, (c, (d, (e, (f, (g, _))))))) bull_thesis = b
  unvetoed (a, (b, (c, (d, (e, (f, (g, _))))))) execution_liquidity = c
  unvetoed (a, (b, (c, (d, (e, (f, (g, _))))))) portfolio_risk = d
  unvetoed (a, (b, (c, (d, (e, (f, (g, _))))))) researcher = e
  unvetoed (a, (b, (c, (d, (e, (f, (g, _))))))) rules_settlement = f
  unvetoed (a, (b, (c, (d, (e, (f, (g, _))))))) skeptic = g
  unvetoed all_free master_synthesizer = λ crit. let never = master_uncritical configs in cc

  -- What the flags of the policy come to.
  can_synthesize_parts : (can_synthesize (calculate_policy configs verdicts) ≡ true) ↔ (
      (takes_side (verdict_of bull_thesis verdicts) ≡ true)
      × (takes_side (verdict_of bear_thesis verdicts) ≡ true)
      × (is_empty (missing_of configs verdicts) ≡ true)
      × (is_empty (vetoes_of sorted_specialists configs verdicts) ≡ true))
  unfolding can_synthesize calculate_policy error_if
  can_synthesize_parts = (ground arith, ground arith)

at_role : (P : AgentRole → Type 0) → All P role_order → (role : AgentRole) → P role
at_role P (a, (b, (c, (d, (e, (f, (g, (h, _)))))))) researcher = a
at_role P (a, (b, (c, (d, (e, (f, (g, (h, _)))))))) bull_thesis = b
at_role P (a, (b, (c, (d, (e, (f, (g, (h, _)))))))) bear_thesis = c
at_role P (a, (b, (c, (d, (e, (f, (g, (h, _)))))))) skeptic = d
at_role P (a, (b, (c, (d, (e, (f, (g, (h, _)))))))) execution_liquidity = e
at_role P (a, (b, (c, (d, (e, (f, (g, (h, _)))))))) rules_settlement = f
at_role P (a, (b, (c, (d, (e, (f, (g, (h, _)))))))) portfolio_risk = g
at_role P (a, (b, (c, (d, (e, (f, (g, (h, _)))))))) master_synthesizer = h

every_role :
    (P : AgentRole → Type 0) (roles : List AgentRole) → ((role : AgentRole) → P role) → All P roles
every_role P [] h = tt
every_role P (role ∷ roles) h = (h role, every_role P roles h)

-- The policy lets the council go on exactly when both the bull and the bear have a valid verdict that does
-- not abstain, and every critical specialist's last verdict is there, is valid and blocks nothing.
pub can_synthesize_iff :
    (configs : List RoleConfig) (verdicts : List (Option AgentVerdict))
    → (can_synthesize (calculate_policy configs verdicts) ≡ true) ↔ IsCleared configs verdicts
can_synthesize_iff configs verdicts =
    let parts = can_synthesize_parts configs verdicts in
    (
      (λ h.
          let (bull, bear, complete, free) = parts.0 h in
          record {
            bull = takes_side-IsDirectional (verdict_of bull_thesis verdicts) bull;
            bear = takes_side-IsDirectional (verdict_of bear_thesis verdicts) bear;
            critical_roles = λ role.
                passing configs verdicts role
                  (at_role (Complete configs verdicts) ((missing-empty configs verdicts).0 complete)
                    role)
                  (unvetoed configs verdicts
                    ((vetoes-empty configs verdicts sorted_specialists).0 free) role);
          }),
      (λ c. parts.1 (
        IsDirectional-takes_side (verdict_of bull_thesis verdicts) c.bull,
        IsDirectional-takes_side (verdict_of bear_thesis verdicts) c.bear,
        (missing-empty configs verdicts).1 (
            every_role (Complete configs verdicts) role_order
              (λ role. passing-Complete configs verdicts role (c.critical_roles role))),
        (vetoes-empty configs verdicts sorted_specialists).1 (
            every_role (NoVeto configs verdicts) sorted_specialists
              (λ role. passing-NoVeto configs verdicts role (c.critical_roles role))),
      )),
    )
