-- ===== src/Execution/Bracket.antt =====
-- The mandatory bracket of a perps position (src/kalshi_bot/risk/exit_triggers.py). The margin client is a
-- parameter, and each of its calls may raise; what is done to the exchange is the list of calls, in
-- order. Prices of `anchored_bracket_prices` are integers of a smallest unit.
pub mod Protection
mod Tests
use kalshi_trading_bot.Prelude.{
  ℕ, ◌≤◌, Bool, true, false, not, ◌||◌, Option, none, some, List, [], ◌∷◌, String, if◌then◌else◌,
  Outcome, ok, raised, contains,
}
use kalshi_trading_bot.Prelude.Int.{ℤ, pos, ◌+ℤ◌, ◌-ℤ◌, leb_ℤ}

pub data PositionKind : Type 0 where
  isolated cross : PositionKind

pub data Side : Type 0 where
  bid ask : Side

pub data Direction : Type 0 where
  long short : Direction

-- The order that flattens a position.
pub record CloseOrder : Type 0 where
  pub market_ticker : String
  pub side : Side
  pub count : String
  pub price : String
  pub time_in_force : String
  pub post_only : Bool
  pub reduce_only : Bool

-- What the code reads of an order response: whether `filled` is there and true, and the status.
pub record OrderResponse : Type 0 where
  pub filled : Bool
  pub status : Option String

-- A call of the margin client.
pub data ClientCall : Type 0 where
  sets_exit_trigger : PositionKind → String → String → Option String → ClientCall
  creates_order : CloseOrder → ClientCall

-- The text of an error, by the exceptions that it is made of.
pub data BracketError (Error : Type 0) : Type 0 where
  attach_failed : Error → BracketError Error
  both_failed : Error → Error → BracketError Error
  close_unconfirmed : Error → BracketError Error

pub record BracketResult (Trigger Error : Type 0) : Type 0 where
  pub attached : Bool
  pub exit_trigger : Option Trigger
  pub closed_due_to_failure : Bool
  pub error : Option (BracketError Error)

-- The arguments of `attach_mandatory_bracket` but for the callables.
pub record BracketRequest : Type 0 where
  pub ticker : String
  pub position_kind : PositionKind
  pub stop_loss_price : String
  pub take_profit_price : Option String
  pub close_side : Side
  pub close_count : String
  pub marketable_close_price : String

abbrev pub has_filled_status : Option String → Bool
has_filled_status none = false
has_filled_status (some status) = contains ("filled" ∷ "executed" ∷ []) status

-- The callback `confirm_close`, where there is one, may raise.
abbrev pub is_confirmed :
    {Error : Type 0}
    → Option (OrderResponse → Outcome Error Bool)
    → OrderResponse
    → Outcome Error Bool
is_confirmed none response = ok (response.filled || has_filled_status response.status)
is_confirmed (some confirm_close) response = confirm_close response

abbrev pub close_order : BracketRequest → CloseOrder
close_order request = record {
  market_ticker = request.ticker;
  side = request.close_side;
  count = request.close_count;
  price = request.marketable_close_price;
  time_in_force = "immediate_or_cancel";
  post_only = false;
  reduce_only = true;
}

abbrev pub trigger_call : BracketRequest → ClientCall
trigger_call request =
    sets_exit_trigger request.position_kind request.ticker request.stop_loss_price
      request.take_profit_price

abbrev pub failed :
    {Trigger Error : Type 0} → Bool → BracketError Error → BracketResult Trigger Error
failed closed error = record {
  attached = false;
  exit_trigger = none;
  closed_due_to_failure = closed;
  error = some error;
}

abbrev pub closed_as :
    {Trigger Error : Type 0}
    → Error
    → Outcome Error Bool
    → Outcome Error (BracketResult Trigger Error)
closed_as error (ok confirmed) = ok (
    if confirmed then failed true (attach_failed error) else failed false (close_unconfirmed error))
closed_as error (raised confirm_error) = raised confirm_error

-- `_close_after_failed_bracket`, by what `create_order` gives.
abbrev pub close_after_failed_bracket :
    {Trigger Error : Type 0}
    → Option (OrderResponse → Outcome Error Bool)
    → Error
    → Outcome Error OrderResponse
    → Outcome Error (BracketResult Trigger Error)
close_after_failed_bracket confirm_close error (raised close_error) =
    ok (failed false (both_failed error close_error))
close_after_failed_bracket confirm_close error (ok response) =
    closed_as error (is_confirmed confirm_close response)

abbrev pub attach_by :
    {Trigger Error : Type 0}
    → (CloseOrder → Outcome Error OrderResponse)
    → Option (OrderResponse → Outcome Error Bool)
    → BracketRequest
    → Outcome Error Trigger
    → Outcome Error (BracketResult Trigger Error) × List ClientCall
attach_by create_order confirm_close request (ok trigger) = (
  ok (record {
    attached = true;
    exit_trigger = some trigger;
    closed_due_to_failure = false;
    error = none;
  }),
  trigger_call request ∷ [],
)
attach_by create_order confirm_close request (raised error) = (
  close_after_failed_bracket confirm_close error (create_order (close_order request)),
  trigger_call request ∷ creates_order (close_order request) ∷ [],
)

unfoldable pub attach_mandatory_bracket :
    {Trigger Error : Type 0}
    → (PositionKind → String → String → Option String → Outcome Error Trigger)
    → (CloseOrder → Outcome Error OrderResponse)
    → Option (OrderResponse → Outcome Error Bool)
    → BracketRequest
    → Outcome Error (BracketResult Trigger Error) × List ClientCall
attach_mandatory_bracket set_exit_trigger create_order confirm_close request =
    attach_by create_order confirm_close request (
      set_exit_trigger request.position_kind request.ticker request.stop_loss_price
        request.take_profit_price)

pub data AnchorError : Type 0 where
  bad_fill bad_target bad_exit : AnchorError

abbrev pub not_positive : ℤ → Bool
not_positive a = leb_ℤ a (pos 0)

abbrev pub is_not_positive : Option ℤ → Bool
is_not_positive none = false
is_not_positive (some a) = not_positive a

abbrev pub stop_of : Direction → ℤ → ℤ → ℤ
stop_of long fill_price distance = fill_price -ℤ distance
stop_of short fill_price distance = fill_price +ℤ distance

abbrev pub target_of : Direction → ℤ → Option ℤ → Option ℤ
target_of direction fill_price none = none
target_of long fill_price (some distance) = some (fill_price +ℤ distance)
target_of short fill_price (some distance) = some (fill_price -ℤ distance)

unfoldable pub anchored_bracket_prices :
    ℤ → ℤ → Option ℤ → Direction → Outcome AnchorError (ℤ × Option ℤ)
anchored_bracket_prices fill_price stop_distance target_distance direction =
    let stop = stop_of direction fill_price stop_distance in
    let target = target_of direction fill_price target_distance in
    if not_positive fill_price || not_positive stop_distance
    then raised bad_fill
    else (if is_not_positive target_distance
        then raised bad_target
        else (if not_positive stop || is_not_positive target
            then raised bad_exit
            else ok (stop, target)))
