-- ===== src/Execution/PaperGuard/Admits.antt =====
-- What `validate` and `assert_paper_adapter` of src/kalshi_bot/execution/paper_guard.py let through.
use kalshi_trading_bot.Prelude.{
  Bool, true, false, not, ◌&&◌, Option, String, ◌≡◌, ok, contains, arith,
}
use kalshi_trading_bot.Execution.PaperGuard.{
  PathOperations, GuardSettings, PaperExecutionGuard, paper_modes, ledger_suffixes, bad_names,
  chosen_path, validate,
}

-- A paper or shadow run on a local SQLite file, with demo reads where reads are signed.
pub record IsPaperRun (paths : PathOperations) (settings : GuardSettings) (mode : String)
    (signed : Bool) (path : String) : Type 0 where
  pub known_mode : contains paper_modes mode ≡ true
  pub on_paper : settings.paper_trading ≡ true
  pub demo_reads : signed && not settings.kalshi_use_demo_env ≡ false
  pub named : contains bad_names (paths.name_of path) ≡ false
  pub sqlite : contains ledger_suffixes (paths.lower_suffix path) ≡ true
  pub a_file : paths.is_dir path ≡ false

-- A guard that is returned stands for a paper or shadow run on a local SQLite file, is about the
-- run that was asked for, and its fingerprint names the mode, whether reads are signed, and the file's
-- absolute path.
pub validate-IsPaperRun :
    (paths : PathOperations) (settings : GuardSettings) (mode : String) (signed : Bool)
    (ledger_path : Option String) {guard : PaperExecutionGuard}
    → validate paths settings mode signed ledger_path ≡ ok guard
    → IsPaperRun paths settings mode signed guard.ledger_path
      × (guard.ledger_path ≡ chosen_path ledger_path settings)
      × (guard.mode ≡ mode)
      × (guard.require_authenticated ≡ signed)
      × (guard.config_fingerprint.mode ≡ guard.mode)
      × (guard.config_fingerprint.require_authenticated ≡ signed)
      × (guard.config_fingerprint.db ≡ paths.resolve guard.ledger_path)
unfolding validate
validate-IsPaperRun paths settings mode signed ledger_path {guard} h = ground arith
