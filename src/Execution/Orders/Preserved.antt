-- ===== src/Execution/Orders/Preserved.antt =====
-- Each call of `OrderTracker` but `reconcile` (src/kalshi_bot/execution/order_tracker.py) keeps the
-- tracker valid, whether its save is let through or not.
use text.Mathlib.Text.{◌==◌ as str_eq}
use kalshi_trading_bot.Prelude.{
  ℕ, if_both, Outcome, raised, ltb, ok, ◌<◌, ◌≡◌, refl, Bool, true, false, not, ◌||◌, Option, none,
  some, List, [], ◌∷◌, String, arith, ◌==◌,
}
use kalshi_trading_bot.Execution.OrderFile.Roundtrip.{load_orders-stored}
use kalshi_trading_bot.Execution.Orders.{
  TrackedOrder, OrderTracker, lookup, insert, load, save, store, replace_orders, TrackerError,
  different_details, bad_quantity, register, register_at, record_fill, record_fill_at,
  mark_cancelled, mark_cancelled_at, remaining, new_order, with_fill, with_cancel, cancel_each,
  goes_on,
}
use kalshi_trading_bot.Execution.Orders.Table.{AllOrders-insert, AllOrders-lookup}
use kalshi_trading_bot.Execution.Orders.Validity.{
  IsValidOrder, IsValid, new_order-IsValidOrder, with_fill-IsValidOrder, with_cancel-IsValidOrder,
}

pub found-IsValidOrder :
    (id : String) (order : TrackedOrder) (tracker : OrderTracker)
    → IsValid tracker
    → lookup id tracker.orders ≡ some order
    → IsValidOrder id order
found-IsValidOrder id order tracker v e =
    AllOrders-lookup IsValidOrder id order tracker.orders e v.orders_valid

pub save-IsValid :
    (written : Bool) (tracker : OrderTracker) → IsValid tracker → IsValid (save written tracker)
save-IsValid true tracker v = record {
  orders_valid = v.orders_valid;
  in_file = tracker.orders;
  readable = load_orders-stored tracker.orders;
  in_file_valid = v.orders_valid;
}
save-IsValid false tracker v = v

pub insert-IsValid :
    (id : String) (order : TrackedOrder) (tracker : OrderTracker)
    → IsValidOrder id order
    → IsValid tracker
    → IsValid (replace_orders (insert id order tracker.orders) tracker)
insert-IsValid id order tracker p v = record {
  orders_valid = AllOrders-insert IsValidOrder id order tracker.orders p v.orders_valid;
  in_file = v.in_file;
  readable = v.readable;
  in_file_valid = v.in_file_valid;
}

pub store-IsValid :
    (written : Bool) (id : String) (order : TrackedOrder) (tracker : OrderTracker)
    → IsValidOrder id order
    → IsValid tracker
    → IsValid (store written id order tracker).1
store-IsValid written id order tracker p v =
    save-IsValid written (replace_orders (insert id order tracker.orders) tracker)
      (insert-IsValid id order tracker p v)

abbrev IsValidResult : Outcome TrackerError TrackedOrder × OrderTracker → Type 0
IsValidResult (outcome, tracker) = IsValid tracker

pub nonzero : (n : ℕ) → n == 0 ≡ false → 0 < n
nonzero n h = ground arith

register_at-IsValid :
    (found : Option TrackedOrder) (id ticker : String) (requested : ℕ) (broker_id : Option String)
    (now : ℕ) (written : Bool) (tracker : OrderTracker)
    → 0 < requested
    → IsValid tracker
    → IsValid (register_at found id ticker requested broker_id now written tracker).1
register_at-IsValid (some existing) id ticker requested broker_id now written tracker pos v =
    if_both IsValidResult
      (not (str_eq existing.market_ticker ticker) || not (existing.requested_quantity == requested))
      (raised different_details, tracker) (ok existing, tracker) (λ _. v) (λ _. v)
register_at-IsValid none id ticker requested broker_id now written tracker pos v =
    store-IsValid written id (new_order id broker_id ticker requested now) tracker
      (new_order-IsValidOrder id broker_id ticker requested now pos) v

pub register-IsValid :
    (id ticker : String) (requested : ℕ) (broker_id : Option String) (now : ℕ) (written : Bool)
    (tracker : OrderTracker)
    → IsValid tracker
    → IsValid (register id ticker requested broker_id now written tracker).1
unfolding register
register-IsValid id ticker requested broker_id now written tracker v =
    if_both IsValidResult (requested == 0) (raised bad_quantity, tracker)
      (register_at (lookup id tracker.orders) id ticker requested broker_id now written tracker)
      (λ _. v)
      (λ asked.
        register_at-IsValid (lookup id tracker.orders) id ticker requested broker_id now written
          tracker (nonzero requested asked) v)

record_fill_at-IsValid :
    (found : Option TrackedOrder) (id : String) (quantity : ℕ) (price : Option ℕ) (now : ℕ)
    (written : Bool) (tracker : OrderTracker)
    → lookup id tracker.orders ≡ found
    → IsValid tracker
    → IsValid (record_fill_at found id quantity price now written tracker).1
record_fill_at-IsValid none id quantity price now written tracker e v = v
record_fill_at-IsValid (some order) id quantity price now written tracker e v =
    store-IsValid written id (with_fill quantity price now order) tracker
      (with_fill-IsValidOrder id quantity price now order (found-IsValidOrder id order tracker v e))
      v

pub record_fill-IsValid :
    (id : String) (quantity : ℕ) (price : Option ℕ) (now : ℕ) (written : Bool)
    (tracker : OrderTracker)
    → IsValid tracker
    → IsValid (record_fill id quantity price now written tracker).1
unfolding record_fill
record_fill-IsValid id quantity price now written tracker v =
    if_both IsValidResult (quantity == 0) (raised bad_quantity, tracker)
      (record_fill_at (lookup id tracker.orders) id quantity price now written tracker) (λ _. v)
      (λ _.
        record_fill_at-IsValid (lookup id tracker.orders) id quantity price now written tracker refl
          v)

ltb_zero : (n : ℕ) → ltb 0 n ≡ true → 0 < n
ltb_zero n h = ground arith

mark_cancelled_at-IsValid :
    (found : Option TrackedOrder) (id reason : String) (now : ℕ) (written : Bool)
    (tracker : OrderTracker)
    → lookup id tracker.orders ≡ found
    → IsValid tracker
    → IsValid (mark_cancelled_at found id reason now written tracker).1
mark_cancelled_at-IsValid none id reason now written tracker e v = v
mark_cancelled_at-IsValid (some order) id reason now written tracker e v =
    let p = found-IsValidOrder id order tracker v e in
    if_both IsValidResult (ltb 0 (remaining order))
      (store written id (with_cancel reason now order) tracker) (ok order, tracker)
      (λ left.
        store-IsValid written id (with_cancel reason now order) tracker
          (with_cancel-IsValidOrder id reason now order (ltb_zero (remaining order) left) p) v)
      (λ _. v)

pub mark_cancelled-IsValid :
    (id reason : String) (now : ℕ) (written : Bool) (tracker : OrderTracker)
    → IsValid tracker
    → IsValid (mark_cancelled id reason now written tracker).1
unfolding mark_cancelled
mark_cancelled-IsValid id reason now written tracker v =
    mark_cancelled_at-IsValid (lookup id tracker.orders) id reason now written tracker refl v

goes_on-IsValid :
    (outcome : Outcome TrackerError TrackedOrder) (next : OrderTracker) (rest : Bool × OrderTracker)
    → IsValid next
    → IsValid rest.1
    → IsValid (goes_on outcome next rest).1
goes_on-IsValid (ok order) next rest v w = w
goes_on-IsValid (raised error) next rest v w = v

pub cancel_each-IsValid :
    (cancel : TrackedOrder → Bool) (disk : List TrackedOrder → Bool) (stale : List TrackedOrder)
    (now : ℕ) (tracker : OrderTracker)
    → IsValid tracker
    → IsValid (cancel_each cancel disk stale now tracker).1
unfolding cancel_each
cancel_each-IsValid cancel disk [] now tracker v = v
cancel_each-IsValid cancel disk (order ∷ stale) now tracker v =
    let marked = mark_cancelled order.client_order_id "stale_order" now (disk stale) tracker in
    let rest = cancel_each cancel disk stale now marked.1 in
    let w = mark_cancelled-IsValid order.client_order_id "stale_order" now (disk stale) tracker v in
    if_both (λ (r : Bool × OrderTracker). IsValid r.1) (cancel order)
      (goes_on marked.0 marked.1 rest) (false, tracker)
      (λ _.
        goes_on-IsValid marked.0 marked.1 rest w
          (cancel_each-IsValid cancel disk stale now marked.1 w))
      (λ _. v)

-- The file of a valid tracker is read again.
pub load_lem :
    (tracker : OrderTracker) (v : IsValid tracker)
    → load tracker ≡ ok (replace_orders v.in_file tracker)
unfolding load
load_lem tracker v = rw v.readable refl

pub loaded-IsValid :
    (tracker : OrderTracker) (v : IsValid tracker) → IsValid (replace_orders v.in_file tracker)
loaded-IsValid tracker v = record {
  orders_valid = v.in_file_valid;
  in_file = v.in_file;
  readable = v.readable;
  in_file_valid = v.in_file_valid;
}
