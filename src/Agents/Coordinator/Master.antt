-- ===== src/Agents/Coordinator/Master.antt =====
-- The master's attempt does not change what the specialists said
-- (src/kalshi_bot/agents/coordinator.py).
use kalshi_trading_bot.Prelude.{◌≡◌, refl, ap, true, Option, none, some, List, [], ◌∷◌, ◌++◌, arith}
use kalshi_trading_bot.Agents.Contracts.{
  AgentRole, master_synthesizer, is_role, AgentVerdict, RoleConfig, bull_thesis, bear_thesis,
}
use kalshi_trading_bot.Agents.Policy.{verdict_of, later}
use kalshi_trading_bot.Agents.Policy.Clearance.{IsCleared}
use kalshi_trading_bot.Agents.Coordinator.Calls.{RoleAttempt}
use kalshi_trading_bot.Agents.Coordinator.Rounds.{verdict_list}
use kalshi_trading_bot.Agents.Coordinator.Run.{config_in}

-- A verdict that no specialist gave.
abbrev pub IsMasters : Option AgentVerdict → Type 0
IsMasters verdict = (v : AgentVerdict) → verdict ≡ some v → is_role v.role master_synthesizer ≡ true

verdict_of-append :
    (role : AgentRole) (verdicts : List (Option AgentVerdict)) (last : Option AgentVerdict)
    → IsMasters last
    → verdict_of role (verdicts ++ last ∷ []) ≡ verdict_of role verdicts
unfolding verdict_of
verdict_of-append role [] none h = refl
verdict_of-append role [] (some v) h = ground (arith, h v refl)
verdict_of-append role (verdict ∷ verdicts) last h =
    ap (λ found. later found role verdict) (verdict_of-append role verdicts last h)

pub IsCleared-append :
    (roles : List RoleConfig) (verdicts : List (Option AgentVerdict)) (last : Option AgentVerdict)
    → IsMasters last
    → IsCleared roles verdicts
    → IsCleared roles (verdicts ++ last ∷ [])
IsCleared-append roles verdicts last h c =
    let same : (role : AgentRole)
        → verdict_of role (verdicts ++ last ∷ []) ≡ verdict_of role verdicts =
      λ role. verdict_of-append role verdicts last h in
    record {
      bull = rw (same bull_thesis) c.bull;
      bear = rw (same bear_thesis) c.bear;
      critical_roles = λ role crit. rw (same role) (c.critical_roles role crit);
    }

pub config_in-master :
    (configs : List RoleConfig) (config : RoleConfig)
    → config_in master_synthesizer configs ≡ some config
    → is_role config.role master_synthesizer ≡ true
config_in-master [] config h = cc
config_in-master (first ∷ configs) config h = ground (arith, config_in-master configs config)

pub verdict_list-snoc :
    (attempts : List RoleAttempt) (last : RoleAttempt)
    → verdict_list (attempts ++ last ∷ []) ≡ verdict_list attempts ++ last.verdict ∷ []
verdict_list-snoc [] last = refl
verdict_list-snoc (attempt ∷ attempts) last =
    ap (λ vs. attempt.verdict ∷ vs) (verdict_list-snoc attempts last)
