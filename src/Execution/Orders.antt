-- ===== src/Execution/Orders.antt =====
-- `OrderTracker` of src/kalshi_bot/execution/order_tracker.py. Quantities and prices are numbers of
-- smallest units, not below zero; a time is in whole seconds. The file is the field `saved`, by what
-- `json.load` reads from it, and a missing file is one without orders. Each call takes whether the file
-- system lets its `save` through.
pub mod Reconcile
pub mod Table
pub mod Preserved
pub mod Validity
pub mod Reconciled
pub mod Undisturbed
pub mod Durable
pub mod Effects
mod Tests
use Prim.Native.Nat.{min, max}
use Prim.Native.Char.{code}
use text.Mathlib.Text.{◌==◌ as str_eq}
pub use kalshi_trading_bot.Execution.OrderFile.{
  OrderStatus, pending, partial, filled, cancelled, rejected, TrackedOrder, Orders,
}
use kalshi_trading_bot.Execution.OrderFile.{StoredOrders, LoadError, stored, load_orders}
use kalshi_trading_bot.Prelude.{
  ℕ, ◌+◌, ◌-◌, Bool, true, false, not, ◌&&◌, ◌||◌, Option, none, some, List, [], ◌∷◌, String, leb,
  ltb, ◌==◌, if◌then◌else◌, Outcome, ok, raised, get_or, is_empty_text, codes,
}

-- `remaining_quantity`
abbrev pub remaining : TrackedOrder → ℕ
remaining order = order.requested_quantity - order.filled_quantity

pub record OrderTracker : Type 0 where
  pub orders : Orders
  pub saved : StoredOrders

pub data TrackerError : Type 0 where
  bad_quantity different_details not_a_number not_written : TrackerError
  not_loaded : LoadError → TrackerError
  unknown_order : String → TrackerError

unfoldable pub lookup : String → Orders → Option TrackedOrder
lookup id [] = none
lookup id ((key, order) ∷ orders) = if str_eq key id then some order else lookup id orders

-- `self.orders[id] = order`, and the fields that are assigned on the object that is stored there.
unfoldable pub insert : String → TrackedOrder → Orders → Orders
insert id order [] = (id, order) ∷ []
insert id order ((key, old) ∷ orders) =
    if str_eq key id then (key, order) ∷ orders else (key, old) ∷ insert id order orders

-- `save`, which replaces the file at once or not at all.
abbrev pub save : Bool → OrderTracker → OrderTracker
save true tracker = record tracker { saved = stored tracker.orders }
save false tracker = tracker

abbrev pub replace_orders : Orders → OrderTracker → OrderTracker
replace_orders orders tracker = record tracker { orders = orders }

-- `self.orders[id] = order`, `self.save()` and `return order`: a save that fails raises, and the
-- process keeps the order.
abbrev pub store :
    Bool → String → TrackedOrder → OrderTracker → Outcome TrackerError TrackedOrder × OrderTracker
store written id order tracker = (
  if written then ok order else raised not_written,
  save written (replace_orders (insert id order tracker.orders) tracker),
)

abbrev pub load_as : Outcome LoadError Orders → OrderTracker → Outcome TrackerError OrderTracker
load_as (ok orders) tracker = ok (replace_orders orders tracker)
load_as (raised error) tracker = raised (not_loaded error)

-- `load` in a new process.
unfoldable pub load : OrderTracker → Outcome TrackerError OrderTracker
load tracker = load_as (load_orders tracker.saved) tracker

abbrev pub new_order : String → Option String → String → ℕ → ℕ → TrackedOrder
new_order id broker_id ticker requested now = record {
  client_order_id = id;
  broker_order_id = broker_id;
  market_ticker = ticker;
  requested_quantity = requested;
  filled_quantity = 0;
  status = pending;
  created_at_ts = now;
  updated_at_ts = now;
  last_fill_price = none;
  cancel_reason = none;
}

abbrev register_at :
    Option TrackedOrder
    → String
    → String
    → ℕ
    → Option String
    → ℕ
    → Bool
    → OrderTracker
    → Outcome TrackerError TrackedOrder × OrderTracker
register_at (some existing) id ticker requested broker_id now written tracker =
    if not (str_eq existing.market_ticker ticker) || not (existing.requested_quantity == requested)
    then (raised different_details, tracker)
    else (ok existing, tracker)
register_at none id ticker requested broker_id now written tracker =
    store written id (new_order id broker_id ticker requested now) tracker

-- `now` is what the clock returns.
unfoldable pub register :
    String
    → String
    → ℕ
    → Option String
    → ℕ
    → Bool
    → OrderTracker
    → Outcome TrackerError TrackedOrder × OrderTracker
register id ticker requested broker_id now written tracker =
    if requested == 0
    then (raised bad_quantity, tracker)
    else register_at (lookup id tracker.orders) id ticker requested broker_id now written tracker

abbrev pub with_fill : ℕ → Option ℕ → ℕ → TrackedOrder → TrackedOrder
with_fill quantity price now order =
    let total = min order.requested_quantity (order.filled_quantity + quantity) in
    record order {
      filled_quantity = total;
      last_fill_price = price;
      status = if order.requested_quantity - total == 0 then filled else partial;
      updated_at_ts = now;
    }

abbrev record_fill_at :
    Option TrackedOrder
    → String
    → ℕ
    → Option ℕ
    → ℕ
    → Bool
    → OrderTracker
    → Outcome TrackerError TrackedOrder × OrderTracker
record_fill_at none id quantity price now written tracker = (raised (unknown_order id), tracker)
record_fill_at (some order) id quantity price now written tracker =
    store written id (with_fill quantity price now order) tracker

unfoldable pub record_fill :
    String
    → ℕ
    → Option ℕ
    → ℕ
    → Bool
    → OrderTracker
    → Outcome TrackerError TrackedOrder × OrderTracker
record_fill id quantity price now written tracker =
    if quantity == 0
    then (raised bad_quantity, tracker)
    else record_fill_at (lookup id tracker.orders) id quantity price now written tracker

abbrev pub with_cancel : String → ℕ → TrackedOrder → TrackedOrder
with_cancel reason now order = record order {
  status = cancelled;
  cancel_reason = some reason;
  updated_at_ts = now;
}

abbrev mark_cancelled_at :
    Option TrackedOrder
    → String
    → String
    → ℕ
    → Bool
    → OrderTracker
    → Outcome TrackerError TrackedOrder × OrderTracker
mark_cancelled_at none id reason now written tracker = (raised (unknown_order id), tracker)
mark_cancelled_at (some order) id reason now written tracker =
    if ltb 0 (remaining order)
    then store written id (with_cancel reason now order) tracker
    else (ok order, tracker)

unfoldable pub mark_cancelled :
    String → String → ℕ → Bool → OrderTracker → Outcome TrackerError TrackedOrder × OrderTracker
mark_cancelled id reason now written tracker =
    mark_cancelled_at (lookup id tracker.orders) id reason now written tracker

abbrev is_open : OrderStatus → Bool
is_open pending = true
is_open partial = true
is_open _ = false

-- The test of `stale_orders`: `now - created >= max_age` is `created + max_age ≤ now`. A `max_age`
-- below zero, which raises, is no natural number.
unfoldable pub is_stale : ℕ → ℕ → TrackedOrder → Bool
is_stale now max_age order =
    is_open order.status && (leb (order.created_at_ts + max_age) now && ltb 0 (remaining order))

unfoldable pub stale_orders : ℕ → ℕ → Orders → List TrackedOrder
stale_orders now max_age [] = []
stale_orders now max_age ((key, order) ∷ orders) =
    let rest = stale_orders now max_age orders in
    if is_stale now max_age order then order ∷ rest else rest

-- The loop of `cancel_stale`, in which the caller's `cancel` and each save may raise. `disk` tells, by
-- the orders that are left, whether the next save is let through. The answer is whether all calls
-- returned.
abbrev pub goes_on :
    Outcome TrackerError TrackedOrder → OrderTracker → Bool × OrderTracker → Bool × OrderTracker
goes_on (ok order) next rest = rest
goes_on (raised error) next rest = (false, next)

unfoldable pub cancel_each :
    (TrackedOrder → Bool)
    → (List TrackedOrder → Bool)
    → List TrackedOrder
    → ℕ
    → OrderTracker
    → Bool × OrderTracker
cancel_each cancel disk [] now tracker = (true, tracker)
cancel_each cancel disk (order ∷ orders) now tracker =
    let marked = mark_cancelled order.client_order_id "stale_order" now (disk orders) tracker in
    let rest = cancel_each cancel disk orders now marked.1 in
    if cancel order then goes_on marked.0 marked.1 rest else (false, tracker)

-- `now` is `now_ts`, `clock` what `mark_cancelled` reads.
unfoldable pub cancel_stale :
    (TrackedOrder → Bool)
    → (List TrackedOrder → Bool)
    → ℕ
    → ℕ
    → ℕ
    → OrderTracker
    → Bool × OrderTracker
cancel_stale cancel disk max_age now clock tracker =
    cancel_each cancel disk (stale_orders now max_age tracker.orders) clock tracker
