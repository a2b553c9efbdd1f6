-- ===== src/Execution/Bracket/Tests.antt =====
-- The bracket with a client whose every call fails, and prices at concrete values.
use kalshi_trading_bot.Prelude.{
  ℕ, false, Option, none, some, String, List, ◌≡◌, ◌⊎◌, refl, Outcome, ok, raised,
}
use kalshi_trading_bot.Prelude.Int.{pos, ◌<ℤ◌, ◌+ℤ◌, ◌-ℤ◌}
use kalshi_trading_bot.Execution.Bracket.{
  BracketRequest, isolated, ask, long, PositionKind, CloseOrder, OrderResponse,
  attach_mandatory_bracket, anchored_bracket_prices, BracketResult, ClientCall,
}
use kalshi_trading_bot.Execution.Bracket.Protection.{
  IsBracketed, IsUnwound, attach_outcome, IsAround, anchored-IsAround,
}

abbrev request : BracketRequest
request = record {
  ticker = "KXBTCPERP";
  position_kind = isolated;
  stop_loss_price = "95.0";
  take_profit_price = none;
  close_side = ask;
  close_count = "2";
  marketable_close_price = "90.0";
}

abbrev no_trigger : PositionKind → String → String → Option String → Outcome String ℕ
no_trigger kind ticker stop target = raised "rejected"

abbrev unfilled : CloseOrder → Outcome String OrderResponse
unfilled order = ok (record { filled = false; status = some "resting" })

abbrev outcome : Outcome String (BracketResult ℕ String) × List ClientCall
outcome = attach_mandatory_bracket no_trigger unfilled none request

attach_outcome_example :
    IsBracketed request (raised "rejected") outcome.0 outcome.1
    ⊎ IsUnwound unfilled none request (raised "rejected") outcome.0 outcome.1
attach_outcome_example = attach_outcome no_trigger unfilled none request

prices_returned :
    anchored_bracket_prices (pos 1000) (pos 50) (some (pos 80)) long ≡ ok (pos 950, some (pos 1080))
unfolding anchored_bracket_prices ◌+ℤ◌ ◌-ℤ◌
prices_returned = refl

anchored-IsAround_example :
    (pos 0 <ℤ pos 1000) × IsAround long (pos 1000) (pos 950) (some (pos 1080))
anchored-IsAround_example =
    anchored-IsAround (pos 1000) (pos 50) (some (pos 80)) long prices_returned
