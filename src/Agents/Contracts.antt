-- ===== src/Agents/Contracts.antt =====
-- The council's contracts (src/kalshi_bot/agents/contracts.py) and profiles (src/kalshi_bot/agents/profiles.py),
-- with the fields that validation, policy and coordination read. Prices, sizes and costs are
-- numbers of smallest units.
use Prim.Native.String.{◌++◌}
use text.Mathlib.Text.{◌==◌ as str_eq}
use kalshi_trading_bot.Prelude.{
  ℕ, Bool, true, false, not, ◌&&◌, ◌||◌, Option, none, some, List, [], ◌∷◌, String, ◌==◌,
  if◌then◌else◌, is_empty, contains, is_some,
}
use kalshi_trading_bot.Agents.Boundary.{CouncilOutcome, take, hold_off, turn_down}

pub data AgentRole : Type 0 where
  researcher bull_thesis bear_thesis skeptic execution_liquidity rules_settlement portfolio_risk
        master_synthesizer :
      AgentRole

pub data RoleCriticality : Type 0 where
  critical advisory non_voting : RoleCriticality

pub data VerdictDecision : Type 0 where
  support oppose abstain block : VerdictDecision

pub data VerdictSeverity : Type 0 where
  info warn blocking : VerdictSeverity

pub data ParseStatus : Type 0 where
  valid repaired invalid : ParseStatus

abbrev pub role_name : AgentRole → String
role_name researcher = "researcher"
role_name bull_thesis = "bull_thesis"
role_name bear_thesis = "bear_thesis"
role_name skeptic = "skeptic"
role_name execution_liquidity = "execution_liquidity"
role_name rules_settlement = "rules_settlement"
role_name portfolio_risk = "portfolio_risk"
role_name master_synthesizer = "master_synthesizer"

abbrev pub role_index : AgentRole → ℕ
role_index researcher = 0
role_index bull_thesis = 1
role_index bear_thesis = 2
role_index skeptic = 3
role_index execution_liquidity = 4
role_index rules_settlement = 5
role_index portfolio_risk = 6
role_index master_synthesizer = 7

unfoldable pub is_role : AgentRole → AgentRole → Bool
is_role a b = role_index a == role_index b

abbrev pub is_critical : RoleCriticality → Bool
is_critical critical = true
is_critical advisory = false
is_critical non_voting = false

abbrev pub is_abstention : VerdictDecision → Bool
is_abstention abstain = true
is_abstention support = false
is_abstention oppose = false
is_abstention block = false

abbrev pub is_block : VerdictDecision → Bool
is_block block = true
is_block support = false
is_block oppose = false
is_block abstain = false

abbrev pub is_blocking : VerdictSeverity → Bool
is_blocking blocking = true
is_blocking info = false
is_blocking warn = false

abbrev pub is_invalid : ParseStatus → Bool
is_invalid invalid = true
is_invalid valid = false
is_invalid repaired = false

-- `EvidenceClaim`: the ids that it cites, and its text.
pub record EvidenceClaim : Type 0 where
  pub claim : String
  pub evidence_ids : List String

pub record AgentVerdict : Type 0 where
  pub verdict_id : String
  pub council_run_id : String
  pub role : AgentRole
  pub evidence_bundle_hash : String
  pub attempt : ℕ
  pub decision : VerdictDecision
  pub severity : VerdictSeverity
  pub claims : List EvidenceClaim
  pub counterevidence : List EvidenceClaim
  pub reason_codes : List String
  pub proposed_action : Option String
  pub price_ceiling : Option ℕ
  pub size_ceiling : Option ℕ
  pub output_tokens : ℕ
  pub cost : ℕ
  pub parse_status : ParseStatus

-- A veto's text, and the role that it begins with.
pub record CouncilPolicy : Type 0 where
  pub quorum_met : Bool
  pub required_roles_complete : Bool
  pub vetoes : List String
  pub abstentions : List AgentRole
  pub missing_roles : List AgentRole
  pub reason_codes : List String

unfoldable pub can_synthesize : CouncilPolicy → Bool
can_synthesize policy =
    policy.quorum_met
    && policy.required_roles_complete
    && is_empty policy.vetoes
    && is_empty policy.reason_codes

pub record CouncilDecision : Type 0 where
  pub decision_id : String
  pub council_run_id : String
  pub outcome : CouncilOutcome
  pub selected_action : Option String
  pub max_entry_price : Option ℕ
  pub max_size : Option ℕ
  pub summary : String
  pub supporting_verdict_ids : List String
  pub dissenting_verdict_ids : List String
  pub policy : CouncilPolicy

abbrev pub is_take : CouncilOutcome → Bool
is_take take = true
is_take hold_off = false
is_take turn_down = false

abbrev pub has_text : Option String → Bool
has_text none = false
has_text (some text) = not (str_eq text "")

-- `_hold_cannot_size`: whether the validator accepts a decision.
unfoldable pub is_sized_right : CouncilDecision → Bool
is_sized_right decision =
    if is_take decision.outcome
    then has_text decision.selected_action
    else not (is_some decision.max_entry_price || is_some decision.max_size)

pub record RoleConfig : Type 0 where
  pub role : AgentRole
  pub criticality : RoleCriticality
  pub enabled : Bool
  pub max_output_tokens : ℕ
  pub max_cost : ℕ
  pub allow_price_ceiling : Bool
  pub allow_size_ceiling : Bool

pub record CouncilBudget : Type 0 where
  pub total_output_tokens : ℕ
  pub total_cost : ℕ
  pub max_reconsideration_rounds : ℕ
  pub max_format_retries : ℕ

-- `','.join(texts)`
abbrev pub join_after : List String → String
join_after [] = ""
join_after (text ∷ texts) = "," ++ text ++ join_after texts

abbrev pub joined : List String → String
joined [] = ""
joined (text ∷ texts) = text ++ join_after texts

-- `tuple(dict.fromkeys(texts))`: the first of equal texts stays.
unfoldable pub distinct_from : List String → List String → List String
distinct_from seen [] = []
distinct_from seen (text ∷ texts) =
    if contains seen text
    then distinct_from seen texts
    else text ∷ distinct_from (text ∷ seen) texts

abbrev pub distinct : List String → List String
distinct texts = distinct_from [] texts
