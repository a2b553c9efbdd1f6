-- ===== src/Execution/Bracket/Protection.antt =====
-- What `attach_mandatory_bracket` and `anchored_bracket_prices` of src/kalshi_bot/risk/exit_triggers.py
-- leave behind.
use text.Mathlib.TextEquality.{eq_iff}
use kalshi_trading_bot.Prelude.{
  ◌≡◌, ◌⊎◌, ◌↔◌, inl, inr, refl, Bool, true, false, Option, none, some, List, [], ◌∷◌, String,
  arith, Outcome, ok, raised, if◌then◌else◌, ◌||◌,
}
use kalshi_trading_bot.Prelude.Text.{contains}
use kalshi_trading_bot.Prelude.Int.{ℤ, pos, ◌<ℤ◌, -ℤ_parts, +ℤ_parts}
use kalshi_trading_bot.Execution.Bracket.{
  PositionKind, CloseOrder, OrderResponse, ClientCall, creates_order, sets_exit_trigger,
  attach_failed, has_filled_status, close_unconfirmed, BracketResult, failed, BracketRequest,
  close_order, closed_as, attach_mandatory_bracket, attach_by, close_after_failed_bracket,
  Direction, long, short, anchored_bracket_prices,
}

-- The order flattens the position that the caller describes: reduce-only, for the caller's count, at the
-- caller's marketable price, taken at once or not at all.
pub record IsFlattening (request : BracketRequest) (order : CloseOrder) : Type 0 where
  pub same_market : order.market_ticker ≡ request.ticker
  pub opposite : order.side ≡ request.close_side
  pub whole_count : order.count ≡ request.close_count
  pub marketable : order.price ≡ request.marketable_close_price
  pub at_once : order.time_in_force ≡ "immediate_or_cancel"
  pub takes : order.post_only ≡ false
  pub reduces : order.reduce_only ≡ true

-- The closing order is known to have filled: by the caller's callback, or else by the response.
abbrev pub IsFilled :
    {Error : Type 0}
    → Option (OrderResponse → Outcome Error Bool)
    → Outcome Error OrderResponse
    → Type 0
IsFilled confirm_close (raised error) = ⊥
IsFilled (some confirm_close) (ok response) = confirm_close response ≡ ok true
IsFilled none (ok response) =
    (response.filled ≡ true)
    ⊎ ((response.status ≡ some "filled") ⊎ (response.status ≡ some "executed"))

-- The caller's callback raised on the response.
abbrev pub ConfirmRaised :
    {Error : Type 0}
    → Option (OrderResponse → Outcome Error Bool)
    → Outcome Error OrderResponse
    → Error
    → Type 0
ConfirmRaised (some confirm_close) (ok response) error = confirm_close response ≡ raised error
ConfirmRaised _ _ error = ⊥

-- The bracket is on the exchange, and nothing else was asked of it.
pub record IsBracketed {Trigger Error : Type 0} (request : BracketRequest)
    (set : Outcome Error Trigger) (outcome : Outcome Error (BracketResult Trigger Error))
    (calls : List ClientCall) : Type 0 where
  pub trigger : Trigger
  pub set_there : set ≡ ok trigger
  pub returned :
      outcome
      ≡ ok (record {
        attached = true;
        exit_trigger = some trigger;
        closed_due_to_failure = false;
        error = none;
      })
  pub only_set :
      calls
      ≡ sets_exit_trigger request.position_kind request.ticker request.stop_loss_price
          request.take_profit_price
        ∷ []

-- What the caller is told after the order that should close the position.
abbrev pub IsTold :
    {Trigger Error : Type 0}
    → Option (OrderResponse → Outcome Error Bool)
    → Outcome Error OrderResponse
    → Outcome Error (BracketResult Trigger Error)
    → Type 0
IsTold confirm_close sent (ok result) =
    (result.attached ≡ false)
    × (result.exit_trigger ≡ none)
    × ((result.closed_due_to_failure ≡ true) ↔ IsFilled confirm_close sent)
IsTold confirm_close sent (raised error) = ConfirmRaised confirm_close sent error

-- The bracket was refused, and an order that flattens the position was sent right after.
pub record IsUnwound {Trigger Error : Type 0}
    (create_order : CloseOrder → Outcome Error OrderResponse)
    (confirm_close : Option (OrderResponse → Outcome Error Bool)) (request : BracketRequest)
    (set : Outcome Error Trigger) (outcome : Outcome Error (BracketResult Trigger Error))
    (calls : List ClientCall) : Type 0 where
  pub refusal : Error
  pub refused : set ≡ raised refusal
  pub close : CloseOrder
  pub flattens : IsFlattening request close
  pub sent :
      calls
      ≡ sets_exit_trigger request.position_kind request.ticker request.stop_loss_price
          request.take_profit_price
        ∷ creates_order close
        ∷ []
  pub told : IsTold confirm_close (create_order close) outcome

confirmed_as :
    {Trigger Error : Type 0} (error : Error) (confirmed : Bool)
    → let result : BracketResult Trigger Error =
        if confirmed
        then failed true (attach_failed error)
        else failed false (close_unconfirmed error) in
      (result.attached ≡ false)
      × (result.exit_trigger ≡ none)
      × (result.closed_due_to_failure ≡ confirmed)
confirmed_as error true = (refl, refl, refl)
confirmed_as error false = (refl, refl, refl)

filled_status :
    (status : Option String)
    → (has_filled_status status ≡ true) ↔ ((status ≡ some "filled") ⊎ (status ≡ some "executed"))
unfolding contains
filled_status none = ground arith
filled_status (some status) = ground (arith, eq_iff status "filled", eq_iff status "executed")

response_confirms :
    (Trigger : Type 0) {Error : Type 0} (error : Error) (response : OrderResponse)
    → IsTold {Trigger = Trigger} none
        (ok response)
        (close_after_failed_bracket none error (ok response))
response_confirms Trigger error response =
    let (off, unset, closed) =
      confirmed_as {Trigger = Trigger} error
        (response.filled || has_filled_status response.status) in
    (off, unset, ground (arith, closed, filled_status response.status))

callback_confirms :
    (Trigger : Type 0) {Error : Type 0} (confirm_close : OrderResponse → Outcome Error Bool)
    (error : Error) (response : OrderResponse) (confirmed : Outcome Error Bool)
    → confirm_close response ≡ confirmed
    → IsTold {Trigger = Trigger} (some confirm_close) (ok response) (closed_as error confirmed)
callback_confirms Trigger confirm_close error response (raised confirm_error) e = e
callback_confirms Trigger confirm_close error response (ok true) e =
    (refl, refl, ((λ _. e), (λ _. refl)))
callback_confirms Trigger confirm_close error response (ok false) e =
    (refl, refl, ((λ h. cc), (λ h. cc)))

close_after_failed_bracket-IsTold :
    (Trigger : Type 0) {Error : Type 0}
    (confirm_close : Option (OrderResponse → Outcome Error Bool)) (error : Error)
    (sent : Outcome Error OrderResponse)
    → IsTold {Trigger = Trigger} confirm_close sent
        (close_after_failed_bracket confirm_close error sent)
close_after_failed_bracket-IsTold Trigger confirm_close error (raised close_error) =
    (refl, refl, ((λ h. cc), (λ h. absurd h)))
close_after_failed_bracket-IsTold Trigger none error (ok response) =
    response_confirms Trigger error response
close_after_failed_bracket-IsTold Trigger (some confirm_close) error (ok response) =
    callback_confirms Trigger confirm_close error response (confirm_close response) refl

module _ {Trigger Error : Type 0}
    (set_exit_trigger : PositionKind → String → String → Option String → Outcome Error Trigger)
    (create_order : CloseOrder → Outcome Error OrderResponse)
    (confirm_close : Option (OrderResponse → Outcome Error Bool)) (request : BracketRequest) where
  attach_by-cases :
      (set : Outcome Error Trigger)
      → let (outcome, calls) = attach_by create_order confirm_close request set in
        IsBracketed request set outcome calls
        ⊎ IsUnwound create_order confirm_close request set outcome calls
  attach_by-cases (ok trigger) =
      inl (record { trigger = trigger; set_there = refl; returned = refl; only_set = refl })
  attach_by-cases (raised e) = inr (record {
    refusal = e;
    refused = refl;
    close = close_order request;
    flattens = record {
      same_market = refl;
      opposite = refl;
      whole_count = refl;
      marketable = refl;
      at_once = refl;
      takes = refl;
      reduces = refl;
    };
    sent = refl;
    told =
        close_after_failed_bracket-IsTold Trigger confirm_close e
          (create_order (close_order request));
  })

  -- Either the exchange took the bracket, which was the only call, and the result says so; or it refused
  -- it, and the next and last call was a reduce-only, immediate-or-cancel order in the market, for the
  -- side, count and price that the caller gave. Then a result that is returned says that nothing is
  -- attached, and calls the position closed exactly when that order is known to have filled: the
  -- caller's callback says so, or, without one, the response's `filled` or status; and if no result is
  -- returned, the callback raised.
  pub attach_outcome :
      let (outcome, calls) =
        attach_mandatory_bracket set_exit_trigger create_order confirm_close request in
      let set =
        set_exit_trigger request.position_kind request.ticker request.stop_loss_price
          request.take_profit_price in
      IsBracketed request set outcome calls
      ⊎ IsUnwound create_order confirm_close request set outcome calls
  unfolding attach_mandatory_bracket
  attach_outcome = attach_by-cases (
      set_exit_trigger request.position_kind request.ticker request.stop_loss_price
        request.take_profit_price)

-- The stop is a positive price on the losing side of the fill, and a target one on its winning side.
abbrev pub IsAround : Direction → ℤ → ℤ → Option ℤ → Type 0
IsAround long fill_price stop none = (pos 0 <ℤ stop) × (stop <ℤ fill_price)
IsAround long fill_price stop (some target) =
    (pos 0 <ℤ stop) × (stop <ℤ fill_price) × (fill_price <ℤ target)
IsAround short fill_price stop none = fill_price <ℤ stop
IsAround short fill_price stop (some target) =
    (fill_price <ℤ stop) × (pos 0 <ℤ target) × (target <ℤ fill_price)

-- Prices that `anchored_bracket_prices` returns lie around a positive fill: the stop on the side of a
-- loss, the target, if there is one, on the side of a gain, and each of them above zero.
pub anchored-IsAround :
    (fill_price stop_distance : ℤ) (target_distance : Option ℤ) (direction : Direction) {stop : ℤ}
    {target : Option ℤ}
    → anchored_bracket_prices fill_price stop_distance target_distance direction ≡ ok (stop, target)
    → (pos 0 <ℤ fill_price) × IsAround direction fill_price stop target
unfolding anchored_bracket_prices
anchored-IsAround fill_price stop_distance none long {stop} {target} h =
    ground (arith, -ℤ_parts fill_price stop_distance)
anchored-IsAround fill_price stop_distance none short {stop} {target} h =
    ground (arith, +ℤ_parts fill_price stop_distance)
anchored-IsAround fill_price stop_distance (some distance) long {stop} {target} h =
    ground (arith, -ℤ_parts fill_price stop_distance, +ℤ_parts fill_price distance)
anchored-IsAround fill_price stop_distance (some distance) short {stop} {target} h =
    ground (arith, +ℤ_parts fill_price stop_distance, -ℤ_parts fill_price distance)
