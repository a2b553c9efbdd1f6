-- ===== src/Execution/Orders/Reconcile.antt =====
-- `reconcile` of src/kalshi_bot/execution/order_tracker.py: the broker's orders are merged into the
-- tracked ones after a restart.
use Prim.Native.Nat.{min, max}
use kalshi_trading_bot.Prelude.{
  ℕ, ◌+◌, ◌-◌, Bool, true, false, ◌&&◌, ◌||◌, Option, none, some, List, [], ◌∷◌, String, leb, ltb,
  ◌==◌, if◌then◌else◌, get_or, is_empty_text, codes, Outcome, ok, raised,
}
use kalshi_trading_bot.Execution.Orders.{
  OrderStatus, partial, filled, cancelled, rejected, TrackedOrder, OrderTracker, lookup, insert,
  save, stale_orders, TrackerError, not_a_number, not_written, replace_orders, register,
}

-- What `float` makes of a payload's value: a number, one below zero, or it raises, as for `None`. NaN
-- is left out.
pub data Amount : Type 0 where
  amount : ℕ → Amount
  below_zero unreadable : Amount

-- A broker's order; a key that the payload lacks is `none`, and a text is what `str` makes of the value.
pub record BrokerOrder : Type 0 where
  pub client_order_id : Option String
  pub order_id : Option String
  pub requested_quantity : Option Amount
  pub count : Option Amount
  pub market_ticker : Option String
  pub ticker : Option String
  pub filled_quantity : Option Amount
  pub filled_count : Option Amount
  pub status : Option String

-- `raw.get("requested_quantity", raw.get("count", 0))`
abbrev pub requested_of : BrokerOrder → Amount
requested_of raw = get_or raw.requested_quantity (get_or raw.count (amount 0))

abbrev pub ticker_of : BrokerOrder → String
ticker_of raw = get_or raw.market_ticker (get_or raw.ticker "unknown")

abbrev pub filled_of : BrokerOrder → ℕ → Amount
filled_of raw current = get_or raw.filled_quantity (get_or raw.filled_count (amount current))

abbrev lower : ℕ → ℕ
lower c = if leb b'A' c && leb c b'Z' then c + 32 else c

-- The text's lower case equals a word of small ASCII letters.
abbrev same_lower : List ℕ → List ℕ → Bool
same_lower [] [] = true
same_lower (c ∷ cs) (d ∷ ds) = lower c == d && same_lower cs ds
same_lower _ _ = false

pub data RemoteStatus : Type 0 where
  remote_rejected remote_closed remote_other : RemoteStatus

-- What the tests on the lowered remote status tell apart.
unfoldable pub classify : String → RemoteStatus
classify s =
    if same_lower (codes s) (codes "rejected")
    then remote_rejected
    else (if same_lower (codes s) (codes "cancelled")
          || (same_lower (codes s) (codes "canceled") || same_lower (codes s) (codes "closed"))
        then remote_closed
        else remote_other)

-- `str(order.status)`, classified, where the payload has no status.
abbrev pub own_status : OrderStatus → RemoteStatus
own_status cancelled = remote_closed
own_status rejected = remote_rejected
own_status _ = remote_other

abbrev pub remote_status : Option String → OrderStatus → RemoteStatus
remote_status none own = own_status own
remote_status (some s) own = classify s

abbrev pub merged_status : RemoteStatus → ℕ → ℕ → OrderStatus → OrderStatus
merged_status remote left total own = if left == 0 then filled else elim remote [
  | remote_rejected ↦ rejected
  | remote_closed ↦ cancelled
  | remote_other ↦ if ltb 0 total then partial else own
]

-- The changes to an order, by the filled quantity that is reported.
unfoldable pub merge : BrokerOrder → ℕ → ℕ → TrackedOrder → TrackedOrder
merge raw reported now order =
    let total = min order.requested_quantity (max order.filled_quantity reported) in
    record order {
      filled_quantity = total;
      status =
          merged_status (remote_status raw.status order.status) (order.requested_quantity - total)
            total order.status;
      updated_at_ts = now;
    }

-- What stopped the loop, if something did, and what is left.
abbrev pub Progress : Type 0
Progress = Option TrackerError × OrderTracker

-- A report below zero is less than what is filled already.
abbrev pub merge_amount : Amount → String → BrokerOrder → ℕ → TrackedOrder → OrderTracker → Progress
merge_amount (amount reported) id raw now order tracker =
    (none, replace_orders (insert id (merge raw reported now order) tracker.orders) tracker)
merge_amount below_zero id raw now order tracker =
    (none, replace_orders (insert id (merge raw 0 now order) tracker.orders) tracker)
merge_amount unreadable id raw now order tracker = (some not_a_number, tracker)

-- The rest of the loop's body, on the order that was found or registered.
abbrev pub merge_into :
    Outcome TrackerError TrackedOrder × OrderTracker → String → BrokerOrder → ℕ → Progress
merge_into (ok order, tracker) id raw now =
    merge_amount (filled_of raw order.filled_quantity) id raw now order tracker
merge_into (raised error, tracker) id raw now = (some error, tracker)

-- `self.orders.get(id) or self.register(…)`; `clock` is what `register` reads.
abbrev pub adopt :
    Option TrackedOrder
    → String
    → ℕ
    → BrokerOrder
    → ℕ
    → Bool
    → OrderTracker
    → Outcome TrackerError TrackedOrder × OrderTracker
adopt (some order) id requested raw clock written tracker = (ok order, tracker)
adopt none id requested raw clock written tracker =
    register id (ticker_of raw) requested raw.order_id clock written tracker

abbrev pub reconcile_amount : Amount → String → BrokerOrder → ℕ → ℕ → Bool → OrderTracker → Progress
reconcile_amount unreadable id raw clock now written tracker = (some not_a_number, tracker)
reconcile_amount below_zero id raw clock now written tracker = (none, tracker)
reconcile_amount (amount requested) id raw clock now written tracker =
    if requested == 0
    then (none, tracker)
    else merge_into (adopt (lookup id tracker.orders) id requested raw clock written tracker) id raw
        now

abbrev pub reconcile_entry : Option String → BrokerOrder → ℕ → ℕ → Bool → OrderTracker → Progress
reconcile_entry none raw clock now written tracker = (none, tracker)
reconcile_entry (some id) raw clock now written tracker =
    if is_empty_text id
    then (none, tracker)
    else reconcile_amount (requested_of raw) id raw clock now written tracker

-- The body of the loop; `now` is `now_ts`, or the clock again.
unfoldable pub reconcile_one : BrokerOrder → ℕ → ℕ → Bool → OrderTracker → Progress
reconcile_one raw clock now written tracker =
    reconcile_entry raw.client_order_id raw clock now written tracker

abbrev pub reconcile_rest : Progress → Progress → Progress
reconcile_rest (none, next) rest = rest
reconcile_rest (some error, next) rest = (some error, next)

-- `disk` tells, by the payloads that are left, whether a save is let through.
unfoldable pub reconcile_all :
    List BrokerOrder → ℕ → ℕ → (List BrokerOrder → Bool) → OrderTracker → Progress
reconcile_all [] clock now disk tracker = (none, tracker)
reconcile_all (raw ∷ raws) clock now disk tracker =
    let step = reconcile_one raw clock now (disk (raw ∷ raws)) tracker in
    reconcile_rest step (reconcile_all raws clock now disk step.1)

-- What follows the loop: the last save, and the orders that need action.
abbrev pub finish : Progress → ℕ → Bool → Outcome TrackerError (List TrackedOrder) × OrderTracker
finish (some error, tracker) now written = (raised error, tracker)
finish (none, tracker) now written = (
  if written then ok (stale_orders now 0 tracker.orders) else raised not_written,
  save written tracker,
)

unfoldable pub reconcile :
    List BrokerOrder
    → ℕ
    → ℕ
    → (List BrokerOrder → Bool)
    → OrderTracker
    → Outcome TrackerError (List TrackedOrder) × OrderTracker
reconcile raws clock now disk tracker =
    finish (reconcile_all raws clock now disk tracker) now (disk [])
