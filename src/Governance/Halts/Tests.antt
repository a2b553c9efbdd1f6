-- ===== src/Governance/Halts/Tests.antt =====
-- The emergency switch on concrete ledgers.
use kalshi_trading_bot.Prelude.{ℕ, true, false, none, some, List, [], ◌∷◌, String, ◌≡◌, refl, ok}
use kalshi_trading_bot.Prelude.Text.{contains, is_blank}
use Prim.Native.String.{◌++◌}
use kalshi_trading_bot.Governance.Halts.{
  HaltRequest, ResumeRequest, HaltLedger, status, blocks_entry, halt, resume, clean, is_halt_source,
}
use kalshi_trading_bot.Governance.Halts.Spec.{
  Call, halt_call, resume_call, after, after_all, switch_all, blocks_entry-after_all,
}
use kalshi_trading_bot.Governance.Halts.Episodes.{additional_trigger_moves_clock}

abbrev request : String → String → ℕ → HaltRequest
request source fresh now = record {
  source = source;
  reason = "limit hit";
  paper_run_id = none;
  domain = none;
  asset_id = none;
  operator = none;
  policy_snapshot = none;
  fresh = fresh;
  now = now;
}

abbrev clear : ResumeRequest
clear = record { operator = "ann"; check = clean; note = "checked"; now = 30 }

abbrev sick : ResumeRequest
sick = record {
  operator = "ann";
  check = record { healthy = false; unresolved = "open order" ∷ [] };
  note = "checked";
  now = 20;
}

abbrev day : List Call
day =
    halt_call (request "drawdown" "h1" 10)
    ∷ resume_call sick
    ∷ halt_call (request "rumour" "h2" 25)
    ∷ resume_call clear
    ∷ halt_call (request "daily_loss" "h3" 40)
    ∷ []

abbrev halted_rows : HaltLedger
halted_rows = (halt none (request "drawdown" "h1" 10) []).1

day_blocks : blocks_entry (after_all none day []) ≡ true
unfolding after_all after halt resume blocks_entry is_halt_source status contains is_blank
day_blocks = refl

blocks_entry-after_all_example :
    blocks_entry (after_all none day []) ≡ switch_all day (blocks_entry [])
blocks_entry-after_all_example = blocks_entry-after_all none day []

first_halted : (status halted_rows).halted ≡ true
unfolding status halt is_halt_source contains
first_halted = refl

still_halted :
    (status (after none (halt_call (request "daily_loss" "h2" 20)) halted_rows)).halted ≡ true
unfolding status halt after is_halt_source contains
still_halted = refl

known_source : is_halt_source "daily_loss" ≡ true
unfolding is_halt_source contains
known_source = refl

additional_trigger_moves_clock_example :
    let (result, rows') = halt none (request "daily_loss" "h2" 20) halted_rows in
    (result ≡ ok (status halted_rows))
    × ((status rows').halt_id ≡ (status halted_rows).halt_id)
    × ((status rows').source ≡ some "daily_loss")
    × ((status rows').reason ≡ some ("additional_trigger: " ++ "limit hit"))
    × ((status rows').since_ts ≡ some 20)
additional_trigger_moves_clock_example =
    additional_trigger_moves_clock none (request "daily_loss" "h2" 20) halted_rows known_source
      first_halted
