-- ===== src/Execution/PerpAdmission/Tests.antt =====
-- The admission verdict on a concrete asset.
use kalshi_trading_bot.Prelude.{◌↔◌, true, none, some, String, ◌≡◌, refl, arith}
use kalshi_trading_bot.Prelude.Text.{contains}
use kalshi_trading_bot.Execution.PerpAdmission.{
  DiscoverySnapshot, PerpMarkCoverage, evaluate_perp_admission, default_ages,
}
use kalshi_trading_bot.Execution.PerpAdmission.Verdict.{perp_fill_iff, IsAdmitted, perp_admits}

abbrev discovery : DiscoverySnapshot
discovery = record {
  asset_id = "BTC";
  instrument = "perp";
  checked_at = 9500;
  eligible = true;
  failure_reason = none;
  has_multiplier = true;
  has_minimum_order_size = true;
  has_reference_index = true;
}

abbrev coverage : PerpMarkCoverage
coverage = record {
  latest_mark_observed_at = some 9950;
  latest_funding_observed_at = some 1000;
  has_realized_funding = true;
}

abbrev upper : String → String
upper s = s

btc-IsAdmitted : IsAdmitted "BTC" 10000 default_ages (some discovery) coverage
unfolding contains
btc-IsAdmitted = record {
  active = refl;
  discovered = record {
    same_asset = refl;
    perp = refl;
    is_eligible = refl;
    recent = omega arith;
    multiplier = refl;
    minimum = refl;
    reference = refl;
  };
  covered = record { mark = omega arith; realized = refl; funding = omega arith };
}

btc_fills :
    (evaluate_perp_admission upper "BTC" 10000
      (some discovery)
      coverage
      true
      true
      default_ages).may_fill
    ≡ true
btc_fills =
    (perp_admits upper "BTC" 10000 (some discovery) coverage true true default_ages
      btc-IsAdmitted).1

perp_fill_iff_example :
    ((evaluate_perp_admission upper "BTC" 10000
        (some discovery)
        coverage
        true
        true
        default_ages).may_fill
      ≡ true)
    ↔ (IsAdmitted "BTC" 10000 default_ages (some discovery) coverage
        × (true ≡ true)
        × (true ≡ true))
perp_fill_iff_example =
    perp_fill_iff upper "BTC" 10000 (some discovery) coverage true true default_ages
