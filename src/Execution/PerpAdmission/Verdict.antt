-- ===== src/Execution/PerpAdmission/Verdict.antt =====
-- When `evaluate_perp_admission` (src/kalshi_bot/execution/perp_admission.py) admits an asset, and when it
-- lets a paper fill through.
use text.Mathlib.Text.{◌==◌ as str_eq}
use kalshi_trading_bot.Prelude.{
  ℕ, ◌+◌, ◌≤◌, ◌≡◌, Bool, true, false, ◌&&◌, Option, none, some, String, arith, if◌then◌else◌,
  Bool-cases, inl, inr, ◌↔◌, ◌∙◌, refl,
}
use kalshi_trading_bot.Execution.PerpAdmission.{
  PerpMarkCoverage, DiscoverySnapshot, Ages, is_active_perp_asset, evaluate_perp_admission,
  judge_discovery, judge_coverage, refuse,
}

-- A snapshot of this very perpetual, eligible, complete and of late.
pub record IsFreshPerp (asset : String) (now : ℕ) (ages : Ages) (found : DiscoverySnapshot)
    : Type 0 where
  pub same_asset : str_eq found.asset_id asset ≡ true
  pub perp : str_eq found.instrument "perp" ≡ true
  pub is_eligible : found.eligible ≡ true
  pub recent : now ≤ found.checked_at + ages.max_metadata_age_s
  pub multiplier : found.has_multiplier ≡ true
  pub minimum : found.has_minimum_order_size ≡ true
  pub reference : found.has_reference_index ≡ true

-- The time is known, and at most so many seconds ago.
abbrev pub IsRecent : ℕ → ℕ → Option ℕ → Type 0
IsRecent now age none = ⊥
IsRecent now age (some t) = now ≤ t + age

abbrev pub IsFreshDiscovery : String → ℕ → Ages → Option DiscoverySnapshot → Type 0
IsFreshDiscovery asset now ages none = ⊥
IsFreshDiscovery asset now ages (some found) = IsFreshPerp asset now ages found

pub record IsCovered (now : ℕ) (ages : Ages) (coverage : PerpMarkCoverage) : Type 0 where
  pub mark : IsRecent now ages.max_mark_age_s coverage.latest_mark_observed_at
  pub realized : coverage.has_realized_funding ≡ true
  pub funding : IsRecent now ages.max_funding_age_s coverage.latest_funding_observed_at

-- What the documentation asks of an asset that decisions may be made on.
pub record IsAdmitted (asset : String) (now : ℕ) (ages : Ages)
    (discovery : Option DiscoverySnapshot) (coverage : PerpMarkCoverage) : Type 0 where
  pub active : is_active_perp_asset asset ≡ true
  pub discovered : IsFreshDiscovery asset now ages discovery
  pub covered : IsCovered now ages coverage

IsCovered-parts :
    (asset : String) (now : ℕ) (coverage : PerpMarkCoverage) (report paper : Bool) (ages : Ages)
    → (judge_coverage asset now coverage report paper ages).admitted ≡ true
    → IsCovered now ages coverage
IsCovered-parts asset now coverage report paper ages h = ground arith

discovered_parts :
    (discovery : Option DiscoverySnapshot) (asset : String) (now : ℕ) (coverage : PerpMarkCoverage)
    (report paper : Bool) (ages : Ages)
    → (judge_discovery discovery asset now coverage report paper ages).admitted ≡ true
    → IsFreshDiscovery asset now ages discovery
      × ((judge_coverage asset now coverage report paper ages).admitted ≡ true)
discovered_parts none asset now coverage report paper ages h = cc
discovered_parts (some found) asset now coverage report paper ages h = (ground arith, ground arith)

-- An asset that is admitted is one of the active ones, with an eligible and complete discovery
-- snapshot of its own perpetual, a mark and realized funding, each within its age.
pub perp_admitted-IsAdmitted :
    (upper : String → String) (asset_id : String) (now : ℕ) (discovery : Option DiscoverySnapshot)
    (coverage : PerpMarkCoverage) (report paper : Bool) (ages : Ages)
    → (evaluate_perp_admission upper asset_id now discovery coverage report paper ages).admitted
      ≡ true
    → IsAdmitted (upper asset_id) now ages discovery coverage
unfolding evaluate_perp_admission
perp_admitted-IsAdmitted upper asset_id now discovery coverage report paper ages h =
    elim (Bool-cases (is_active_perp_asset (upper asset_id))) [
      | inr other ↦ absurd (ground arith)
      | inl active ↦
          let (found, rest) =
            discovered_parts discovery (upper asset_id) now coverage report paper ages
              (ground arith) in
          record {
            active = active;
            discovered = found;
            covered = IsCovered-parts (upper asset_id) now coverage report paper ages rest;
          }
    ]

-- An asset that is active, freshly discovered and covered is admitted, and may be filled exactly
-- when its frozen report is there and the run is a paper run.
pub perp_admits :
    (upper : String → String) (asset_id : String) (now : ℕ) (discovery : Option DiscoverySnapshot)
    (coverage : PerpMarkCoverage) (report paper : Bool) (ages : Ages)
    → IsAdmitted (upper asset_id) now ages discovery coverage
    → let verdict =
        evaluate_perp_admission upper asset_id now discovery coverage report paper ages in
      (verdict.admitted ≡ true) × (verdict.may_fill ≡ report && paper)
unfolding evaluate_perp_admission
perp_admits upper asset_id now discovery coverage report paper ages h = ground arith

filled_parts :
    (discovery : Option DiscoverySnapshot) (asset : String) (now : ℕ) (coverage : PerpMarkCoverage)
    (report paper : Bool) (ages : Ages)
    → (judge_discovery discovery asset now coverage report paper ages).may_fill ≡ true
    → ((judge_discovery discovery asset now coverage report paper ages).admitted ≡ true)
      × (report ≡ true)
      × (paper ≡ true)
filled_parts none asset now coverage report paper ages h = cc
filled_parts (some found) asset now coverage report paper ages h = ground arith

filled-admitted :
    (active : Bool) (discovery : Option DiscoverySnapshot) (asset : String) (now : ℕ)
    (coverage : PerpMarkCoverage) (report paper : Bool) (ages : Ages)
    → let verdict =
        if active
        then judge_discovery discovery asset now coverage report paper ages
        else refuse asset "asset_not_active" in
      verdict.may_fill ≡ true → (verdict.admitted ≡ true) × (report ≡ true) × (paper ≡ true)
filled-admitted true discovery asset now coverage report paper ages h =
    filled_parts discovery asset now coverage report paper ages h
filled-admitted false discovery asset now coverage report paper ages h = cc

-- A verdict that lets a fill through has admitted the asset, with all that this takes, in a paper
-- run with a frozen report.
pub perp_fill-IsAdmitted :
    (upper : String → String) (asset_id : String) (now : ℕ) (discovery : Option DiscoverySnapshot)
    (coverage : PerpMarkCoverage) (report paper : Bool) (ages : Ages)
    → (evaluate_perp_admission upper asset_id now discovery coverage report paper ages).may_fill
      ≡ true
    → IsAdmitted (upper asset_id) now ages discovery coverage × (report ≡ true) × (paper ≡ true)
unfolding evaluate_perp_admission
perp_fill-IsAdmitted upper asset_id now discovery coverage report paper ages h =
    let (admitted, reported, on_paper) =
      filled-admitted (is_active_perp_asset (upper asset_id)) discovery (upper asset_id) now
        coverage report paper ages h in
    (
      perp_admitted-IsAdmitted upper asset_id now discovery coverage report paper ages admitted,
      reported,
      on_paper,
    )

-- A verdict lets a paper fill through exactly when the asset is one of the active ones, with an eligible and
-- complete discovery snapshot of its own perpetual, a mark and realized funding, each within its
-- age, there is a frozen report, and the run is a paper run.
pub perp_fill_iff :
    (upper : String → String) (asset_id : String) (now : ℕ) (discovery : Option DiscoverySnapshot)
    (coverage : PerpMarkCoverage) (report paper : Bool) (ages : Ages)
    → ((evaluate_perp_admission upper asset_id now discovery coverage report paper ages).may_fill
        ≡ true)
      ↔ (IsAdmitted (upper asset_id) now ages discovery coverage × (report ≡ true) × (paper ≡ true))
perp_fill_iff upper asset_id now discovery coverage report paper ages = (
  perp_fill-IsAdmitted upper asset_id now discovery coverage report paper ages,
  (λ (admitted, r, p).
      let (_, fills) =
        perp_admits upper asset_id now discovery coverage report paper ages admitted in
      fills ∙ rw (r, p) refl),
)
