-- ===== src/Agents/Coordinator/Budget.antt =====
-- `_BudgetLedger` and `_reserve_roles` of src/kalshi_bot/agents/coordinator.py.
use kalshi_trading_bot.Prelude.{
  ℕ, ◌+◌, ◌≤◌, ◌≡◌, Bool, false, ◌&&◌, List, [], ◌∷◌, leb, if◌then◌else◌, arith, inl, inr,
  Bool-cases, All,
}
use kalshi_trading_bot.Agents.Contracts.{RoleConfig, CouncilBudget}

pub record BudgetLedger : Type 0 where
  pub output_tokens : ℕ
  pub cost : ℕ

abbrev pub no_usage : BudgetLedger
no_usage = record { output_tokens = 0; cost = 0 }

unfoldable pub can_reserve : BudgetLedger → RoleConfig → CouncilBudget → Bool
can_reserve ledger role budget =
    leb (ledger.output_tokens + role.max_output_tokens) budget.total_output_tokens
    && leb (ledger.cost + role.max_cost) budget.total_cost

abbrev pub reserved_too : BudgetLedger → RoleConfig → BudgetLedger
reserved_too ledger role = record {
  output_tokens = ledger.output_tokens + role.max_output_tokens;
  cost = ledger.cost + role.max_cost;
}

-- The loop of `_reserve_roles`: the roles that may start, and those that are skipped.
unfoldable pub reserve_from :
    BudgetLedger → CouncilBudget → List RoleConfig → List RoleConfig × List RoleConfig
reserve_from ledger budget [] = ([], [])
reserve_from ledger budget (role ∷ roles) =
    let (reserved, skipped) = reserve_from (reserved_too ledger role) budget roles in
    let (reserved', skipped') = reserve_from ledger budget roles in
    if can_reserve ledger role budget
    then (role ∷ reserved, skipped)
    else (reserved', role ∷ skipped')

-- The ledger that is passed in is empty, and is empty again afterwards.
abbrev pub reserve_roles : CouncilBudget → List RoleConfig → List RoleConfig × List RoleConfig
reserve_roles budget roles = reserve_from no_usage budget roles

abbrev pub tokens_of : List RoleConfig → ℕ
tokens_of [] = 0
tokens_of (role ∷ roles) = role.max_output_tokens + tokens_of roles

abbrev pub cost_of : List RoleConfig → ℕ
cost_of [] = 0
cost_of (role ∷ roles) = role.max_cost + cost_of roles

-- One list is an interleaving of two others.
pub data Interleaves : List RoleConfig → List RoleConfig → List RoleConfig → Type 0 where
  nothing : Interleaves [] [] []
  takes_left :
      {role : RoleConfig} {all left right : List RoleConfig}
      → Interleaves all left right
      → Interleaves (role ∷ all) (role ∷ left) right
  takes_right :
      {role : RoleConfig} {all left right : List RoleConfig}
      → Interleaves all left right
      → Interleaves (role ∷ all) left (role ∷ right)

-- What the reserved roles may use at most stays within the budget, each role is either reserved or
-- skipped, in order, and a skipped role would not have fitted beside all that are reserved.
pub record IsReserved (ledger : BudgetLedger) (budget : CouncilBudget) (roles : List RoleConfig)
    (split : List RoleConfig × List RoleConfig) : Type 0 where
  pub tokens_fit : ledger.output_tokens + tokens_of split.0 ≤ budget.total_output_tokens
  pub cost_fits : ledger.cost + cost_of split.0 ≤ budget.total_cost
  pub each_once : Interleaves roles split.0 split.1
  pub none_left :
      All
        (λ role.
          (leb
              (ledger.output_tokens + tokens_of split.0 + role.max_output_tokens)
              budget.total_output_tokens
            && leb (ledger.cost + cost_of split.0 + role.max_cost) budget.total_cost)
          ≡ false)
        split.1

abbrev Overflows : BudgetLedger → CouncilBudget → List RoleConfig → RoleConfig → Type 0
Overflows ledger budget reserved role =
    (leb (ledger.output_tokens + tokens_of reserved + role.max_output_tokens)
        budget.total_output_tokens
      && leb (ledger.cost + cost_of reserved + role.max_cost) budget.total_cost)
    ≡ false

shifted :
    (ledger : BudgetLedger) (budget : CouncilBudget) (role : RoleConfig)
    (reserved skipped : List RoleConfig)
    → All (Overflows (reserved_too ledger role) budget reserved) skipped
    → All (Overflows ledger budget (role ∷ reserved)) skipped
shifted ledger budget role reserved [] h = tt
shifted ledger budget role reserved (other ∷ skipped) (here, h) =
    (ground (arith, here), shifted ledger budget role reserved skipped h)

reserve_from-IsReserved :
    (ledger : BudgetLedger) (budget : CouncilBudget) (roles : List RoleConfig)
    → ledger.output_tokens ≤ budget.total_output_tokens
    → ledger.cost ≤ budget.total_cost
    → IsReserved ledger budget roles (reserve_from ledger budget roles)
unfolding reserve_from can_reserve
reserve_from-IsReserved ledger budget [] tokens cost = record {
  tokens_fit = omega arith;
  cost_fits = omega arith;
  each_once = Interleaves.nothing;
  none_left = tt;
}
reserve_from-IsReserved ledger budget (role ∷ roles) tokens cost =
    elim (Bool-cases (can_reserve ledger role budget)) [
      | inl fits ↦
          let r =
            reserve_from-IsReserved (reserved_too ledger role) budget roles (ground arith)
              (ground arith) in
          let split = reserve_from (reserved_too ledger role) budget roles in
          rw fits (record {
            tokens_fit = omega (arith, r.tokens_fit);
            cost_fits = omega (arith, r.cost_fits);
            each_once = Interleaves.takes_left r.each_once;
            none_left = shifted ledger budget role split.0 split.1 r.none_left;
          })
      | inr over ↦
          let r = reserve_from-IsReserved ledger budget roles tokens cost in
          rw over (record {
            tokens_fit = r.tokens_fit;
            cost_fits = r.cost_fits;
            each_once = Interleaves.takes_right r.each_once;
            none_left = (ground arith, r.none_left);
          })
    ]

-- The roles that are reserved for the first round may together use at most the budget's tokens and cost;
-- every role is reserved or skipped, once and in order; and no skipped role fits beside the reserved ones.
pub reserve_roles-IsReserved :
    (budget : CouncilBudget) (roles : List RoleConfig)
    → IsReserved no_usage budget roles (reserve_roles budget roles)
reserve_roles-IsReserved budget roles =
    reserve_from-IsReserved no_usage budget roles (omega arith) (omega arith)
