-- ===== src/Execution/PerpAdmission.antt =====
-- `evaluate_perp_admission` of src/kalshi_bot/execution/perp_admission.py. Times are in whole seconds;
-- `now - t > age` is `t + age < now`.
pub mod Verdict
mod Tests
use text.Mathlib.Text.{◌==◌ as str_eq}
use kalshi_trading_bot.Prelude.{
  ℕ, ◌+◌, Bool, true, false, not, ◌&&◌, ◌||◌, Option, none, some, List, [], ◌∷◌, String, ltb,
  is_some, get_or, if◌then◌else◌, contains, is_empty_text,
}

pub record PerpMarkCoverage : Type 0 where
  pub latest_mark_observed_at : Option ℕ
  pub latest_funding_observed_at : Option ℕ
  pub has_realized_funding : Bool

-- The snapshot's fields that are read; of `metadata`, whether a key has a value other than `None`.
pub record DiscoverySnapshot : Type 0 where
  pub asset_id : String
  pub instrument : String
  pub checked_at : ℕ
  pub eligible : Bool
  pub failure_reason : Option String
  pub has_multiplier : Bool
  pub has_minimum_order_size : Bool
  pub has_reference_index : Bool

pub record PerpAdmissionVerdict : Type 0 where
  pub asset_id : String
  pub admitted : Bool
  pub reason : String
  pub may_fill : Bool

pub record Ages : Type 0 where
  pub max_metadata_age_s : ℕ
  pub max_mark_age_s : ℕ
  pub max_funding_age_s : ℕ

abbrev pub default_ages : Ages
default_ages = record { max_metadata_age_s = 900; max_mark_age_s = 120; max_funding_age_s = 29700 }

abbrev pub active_perp_assets : List String
active_perp_assets = "BTC" ∷ "ETH" ∷ "SOL" ∷ "XRP" ∷ []

abbrev pub is_active_perp_asset : String → Bool
is_active_perp_asset asset = contains active_perp_assets asset

-- `x or y`, on a text that may be missing.
abbrev pub or_text : Option String → String → String
or_text none d = d
or_text (some s) d = if is_empty_text s then d else s

-- `now - t > age`
abbrev pub is_older : ℕ → ℕ → ℕ → Bool
is_older now age t = ltb (t + age) now

-- `t is None or now - t > age`
abbrev pub is_missing_or_older : ℕ → ℕ → Option ℕ → Bool
is_missing_or_older now age none = true
is_missing_or_older now age (some t) = is_older now age t

abbrev pub refuse : String → String → PerpAdmissionVerdict
refuse asset reason = record {
  asset_id = asset;
  admitted = false;
  reason = reason;
  may_fill = false;
}

abbrev pub admit : String → String → Bool → PerpAdmissionVerdict
admit asset reason may_fill = record {
  asset_id = asset;
  admitted = true;
  reason = reason;
  may_fill = may_fill;
}

-- From the tests on the mark on.
abbrev pub judge_coverage :
    String → ℕ → PerpMarkCoverage → Bool → Bool → Ages → PerpAdmissionVerdict
judge_coverage asset now coverage report paper ages =
    if is_missing_or_older now ages.max_mark_age_s coverage.latest_mark_observed_at
    then refuse asset "no_fresh_mark"
    else (if not coverage.has_realized_funding || not (is_some coverage.latest_funding_observed_at)
        then refuse asset "no_realized_funding_coverage"
        else (if is_missing_or_older now ages.max_funding_age_s coverage.latest_funding_observed_at
            then refuse asset "stale_realized_funding"
            else (if not report
                then admit asset "admitted_for_decisions_only" false
                else (if not paper
                    then admit asset "shadow_mode_no_paper_fill" false
                    else admit asset "admitted_for_paper" true))))

abbrev pub judge_discovery :
    Option DiscoverySnapshot
    → String
    → ℕ
    → PerpMarkCoverage
    → Bool
    → Bool
    → Ages
    → PerpAdmissionVerdict
judge_discovery none asset now coverage report paper ages = refuse asset "no_discovery_snapshot"
judge_discovery (some found) asset now coverage report paper ages =
    if not (str_eq found.asset_id asset) || not (str_eq found.instrument "perp")
    then refuse asset "discovery_snapshot_mismatch"
    else (if not found.eligible
        then refuse asset (or_text found.failure_reason "discovery_ineligible")
        else (if is_older now ages.max_metadata_age_s found.checked_at
            then refuse asset "stale_discovery_snapshot"
            else (if not found.has_multiplier || not found.has_minimum_order_size
                then refuse asset "perp_missing_contract_parameters"
                else (if not found.has_reference_index
                    then refuse asset "perp_missing_reference_index"
                    else judge_coverage asset now coverage report paper ages))))

-- `upper` is the runtime's `str.upper`.
unfoldable pub evaluate_perp_admission :
    (String → String)
    → String
    → ℕ
    → Option DiscoverySnapshot
    → PerpMarkCoverage
    → Bool
    → Bool
    → Ages
    → PerpAdmissionVerdict
evaluate_perp_admission upper asset_id now discovery coverage report paper ages =
    let asset = upper asset_id in
    if is_active_perp_asset asset
    then judge_discovery discovery asset now coverage report paper ages
    else refuse asset "asset_not_active"
