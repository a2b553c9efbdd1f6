-- ===== src/Execution/PaperGuard.antt =====
-- `PaperExecutionGuard` of src/kalshi_bot/execution/paper_guard.py. The file system's path operations are
-- one record of functions.
pub mod Admits
mod Tests
use text.Mathlib.Text.{◌==◌ as str_eq}
use kalshi_trading_bot.Prelude.{
  Bool, true, false, not, ◌&&◌, ◌||◌, Option, none, some, List, [], ◌∷◌, String, if◌then◌else◌,
  Outcome, ok, raised, contains, is_empty_text,
}

-- `Path`: the last suffix in lower case, the last part, the absolute path, and whether a directory is
-- there.
pub record PathOperations : Type 0 where
  pub lower_suffix : String → String
  pub name_of : String → String
  pub resolve : String → String
  pub is_dir : String → Bool

-- What the guard reads of `Settings`.
pub record GuardSettings : Type 0 where
  pub paper_trading : Bool
  pub kalshi_use_demo_env : Bool
  pub db_path : String

-- The fingerprint's text, by its arguments.
pub record Fingerprint : Type 0 where
  pub mode : String
  pub require_authenticated : Bool
  pub db : String

pub record PaperExecutionGuard : Type 0 where
  pub mode : String
  pub require_authenticated : Bool
  pub ledger_path : String
  pub config_fingerprint : Fingerprint

pub data PaperExecutionError : Type 0 where
  unsupported_mode bad_ledger ledger_is_directory unsupported_adapter : String → PaperExecutionError
  not_paper_trading not_demo_env mutating_adapter : PaperExecutionError

abbrev pub paper_modes : List String
paper_modes = "paper" ∷ "shadow" ∷ []

abbrev pub ledger_suffixes : List String
ledger_suffixes = ".db" ∷ ".sqlite" ∷ ".sqlite3" ∷ []

abbrev pub bad_names : List String
bad_names = "" ∷ "." ∷ ".." ∷ []

-- `ledger_path or settings.db_path`, for a path that was given as a text.
abbrev pub chosen_path : Option String → GuardSettings → String
chosen_path none settings = settings.db_path
chosen_path (some path) settings = path

unfoldable pub validate :
    PathOperations
    → GuardSettings
    → String
    → Bool
    → Option String
    → Outcome PaperExecutionError PaperExecutionGuard
validate paths settings mode require_authenticated ledger_path =
    let path = chosen_path ledger_path settings in
    if not (contains paper_modes mode)
    then raised (unsupported_mode mode)
    else (if not settings.paper_trading
        then raised not_paper_trading
        else (if require_authenticated && not settings.kalshi_use_demo_env
            then raised not_demo_env
            else (if contains bad_names (paths.name_of path)
                  || not (contains ledger_suffixes (paths.lower_suffix path))
                then raised (bad_ledger path)
                else (if paths.is_dir path
                    then raised (ledger_is_directory path)
                    else ok (record {
                      mode = mode;
                      require_authenticated = require_authenticated;
                      ledger_path = path;
                      config_fingerprint = record {
                        mode = mode;
                        require_authenticated = require_authenticated;
                        db = paths.resolve path;
                      };
                    })))))

-- What `hasattr` and `getattr` find on an adapter; a name that is missing or `None` is `none`.
pub record Adapter : Type 0 where
  pub has_create_order : Bool
  pub has_amend_order : Bool
  pub broker_name : Option String

abbrev pub is_paper_name : Option String → Bool
is_paper_name none = true
is_paper_name (some name) = contains paper_modes name

abbrev pub shown : Option String → String
shown none = "None"
shown (some name) = name

unfoldable pub assert_paper_adapter : Adapter → Option PaperExecutionError
assert_paper_adapter adapter =
    if adapter.has_create_order || adapter.has_amend_order
    then some mutating_adapter
    else (if not (is_paper_name adapter.broker_name)
        then some (unsupported_adapter (shown adapter.broker_name))
        else none)
