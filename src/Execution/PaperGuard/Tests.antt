-- ===== src/Execution/PaperGuard/Tests.antt =====
-- The guard on concrete settings.
use kalshi_trading_bot.Prelude.{true, false, none, ◌≡◌, refl, ok}
use kalshi_trading_bot.Prelude.Text.{contains}
use kalshi_trading_bot.Execution.PaperGuard.{
  PathOperations, GuardSettings, PaperExecutionGuard, chosen_path, validate,
}
use kalshi_trading_bot.Execution.PaperGuard.Admits.{IsPaperRun, validate-IsPaperRun}

abbrev paths : PathOperations
paths = record {
  lower_suffix = λ path. ".db";
  name_of = λ path. path;
  resolve = λ path. path;
  is_dir = λ path. false;
}

abbrev settings : GuardSettings
settings = record { paper_trading = true; kalshi_use_demo_env = true; db_path = "bot.db" }

abbrev guard : PaperExecutionGuard
guard = record {
  mode = "paper";
  require_authenticated = true;
  ledger_path = "bot.db";
  config_fingerprint = record { mode = "paper"; require_authenticated = true; db = "bot.db" };
}

guard_made : validate paths settings "paper" true none ≡ ok guard
unfolding validate contains
guard_made = refl

validate-IsPaperRun_example :
    IsPaperRun paths settings "paper" true "bot.db"
    × (guard.ledger_path ≡ chosen_path none settings)
    × (guard.mode ≡ "paper")
    × (guard.require_authenticated ≡ true)
    × (guard.config_fingerprint.mode ≡ "paper")
    × (guard.config_fingerprint.require_authenticated ≡ true)
    × (guard.config_fingerprint.db ≡ "bot.db")
validate-IsPaperRun_example = validate-IsPaperRun paths settings "paper" true none guard_made
