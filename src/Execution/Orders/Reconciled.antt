-- ===== src/Execution/Orders/Reconciled.antt =====
-- `reconcile` (src/kalshi_bot/execution/order_tracker.py) keeps the tracker valid wherever it stops.
use kalshi_trading_bot.Prelude.{
  ℕ, if_both, Outcome, raised, ok, ◌≡◌, refl, Bool, true, false, subst, sym, Option, none, some,
  List, [], ◌∷◌, String, ◌==◌, is_empty_text,
}
use kalshi_trading_bot.Execution.Orders.{
  TrackedOrder, OrderTracker, lookup, TrackerError, register, store, new_order,
}
use kalshi_trading_bot.Execution.Orders.Reconcile.{
  BrokerOrder, Amount, amount, below_zero, unreadable, Progress, requested_of, ticker_of, filled_of,
  merge, merge_amount, merge_into, adopt, reconcile_amount, reconcile_entry, reconcile_one,
  reconcile_rest, reconcile_all, finish, reconcile,
}
use kalshi_trading_bot.Execution.Orders.Validity.{
  IsValidOrder, IsValid, merge-IsValidOrder, new_order-IsValidOrder,
}
use kalshi_trading_bot.Execution.Orders.Preserved.{
  store-IsValid, save-IsValid, insert-IsValid, found-IsValidOrder, nonzero,
}

-- A call that returns an order has it filed, and leaves a valid tracker in any case.
abbrev Files : String → Outcome TrackerError TrackedOrder × OrderTracker → Type 0
Files id (ok order, tracker) = IsValidOrder id order × IsValid tracker
Files id (raised error, tracker) = IsValid tracker

store-Files :
    (written : Bool) (id : String) (order : TrackedOrder) (tracker : OrderTracker)
    → IsValidOrder id order
    → IsValid tracker
    → Files id (store written id order tracker)
store-Files true id order tracker p v = (p, store-IsValid true id order tracker p v)
store-Files false id order tracker p v = store-IsValid false id order tracker p v

pub register_new :
    (id ticker : String) (requested : ℕ) (broker_id : Option String) (now : ℕ) (written : Bool)
    (tracker : OrderTracker)
    → requested == 0 ≡ false
    → lookup id tracker.orders ≡ none
    → register id ticker requested broker_id now written tracker
      ≡ store written id (new_order id broker_id ticker requested now) tracker
unfolding register
register_new id ticker requested broker_id now written tracker asked unknown =
    rw (asked, unknown) refl

adopt-Files :
    (found : Option TrackedOrder) (id : String) (requested : ℕ) (raw : BrokerOrder) (clock : ℕ)
    (written : Bool) (tracker : OrderTracker)
    → requested == 0 ≡ false
    → lookup id tracker.orders ≡ found
    → IsValid tracker
    → Files id (adopt found id requested raw clock written tracker)
adopt-Files (some order) id requested raw clock written tracker asked e v =
    (found-IsValidOrder id order tracker v e, v)
adopt-Files none id requested raw clock written tracker asked e v =
    let order = new_order id raw.order_id (ticker_of raw) requested clock in
    subst (Files id)
      (sym (register_new id (ticker_of raw) requested raw.order_id clock written tracker asked e))
      (store-Files written id order tracker
        (new_order-IsValidOrder id raw.order_id (ticker_of raw) requested clock
          (nonzero requested asked))
        v)

merge_amount-IsValid :
    (reported : Amount) (id : String) (raw : BrokerOrder) (now : ℕ) (order : TrackedOrder)
    (tracker : OrderTracker)
    → IsValidOrder id order
    → IsValid tracker
    → IsValid (merge_amount reported id raw now order tracker).1
merge_amount-IsValid (amount n) id raw now order tracker p v =
    insert-IsValid id (merge raw n now order) tracker (merge-IsValidOrder id raw n now order p) v
merge_amount-IsValid below_zero id raw now order tracker p v =
    insert-IsValid id (merge raw 0 now order) tracker (merge-IsValidOrder id raw 0 now order p) v
merge_amount-IsValid unreadable id raw now order tracker p v = v

merge_into-IsValid :
    (adopted : Outcome TrackerError TrackedOrder × OrderTracker) (id : String) (raw : BrokerOrder)
    (now : ℕ)
    → Files id adopted
    → IsValid (merge_into adopted id raw now).1
merge_into-IsValid (ok order, tracker) id raw now (p, v) =
    merge_amount-IsValid (filled_of raw order.filled_quantity) id raw now order tracker p v
merge_into-IsValid (raised error, tracker) id raw now v = v

reconcile_amount-IsValid :
    (requested : Amount) (id : String) (raw : BrokerOrder) (clock now : ℕ) (written : Bool)
    (tracker : OrderTracker)
    → IsValid tracker
    → IsValid (reconcile_amount requested id raw clock now written tracker).1
reconcile_amount-IsValid unreadable id raw clock now written tracker v = v
reconcile_amount-IsValid below_zero id raw clock now written tracker v = v
reconcile_amount-IsValid (amount requested) id raw clock now written tracker v =
    let adopted = adopt (lookup id tracker.orders) id requested raw clock written tracker in
    if_both (λ (r : Progress). IsValid r.1) (requested == 0) (none, tracker)
      (merge_into adopted id raw now) (λ _. v)
      (λ asked. merge_into-IsValid adopted id raw now (
        adopt-Files (lookup id tracker.orders) id requested raw clock written tracker asked refl v))

reconcile_entry-IsValid :
    (id : Option String) (raw : BrokerOrder) (clock now : ℕ) (written : Bool)
    (tracker : OrderTracker)
    → IsValid tracker
    → IsValid (reconcile_entry id raw clock now written tracker).1
reconcile_entry-IsValid none raw clock now written tracker v = v
reconcile_entry-IsValid (some id) raw clock now written tracker v =
    if_both (λ (r : Progress). IsValid r.1) (is_empty_text id) (none, tracker)
      (reconcile_amount (requested_of raw) id raw clock now written tracker) (λ _. v)
      (λ _. reconcile_amount-IsValid (requested_of raw) id raw clock now written tracker v)

reconcile_rest-IsValid :
    (step rest : Progress) → IsValid step.1 → IsValid rest.1 → IsValid (reconcile_rest step rest).1
reconcile_rest-IsValid (none, next) rest v w = w
reconcile_rest-IsValid (some error, next) rest v w = v

reconcile_all-IsValid :
    (raws : List BrokerOrder) (clock now : ℕ) (disk : List BrokerOrder → Bool)
    (tracker : OrderTracker)
    → IsValid tracker
    → IsValid (reconcile_all raws clock now disk tracker).1
unfolding reconcile_all reconcile_one
reconcile_all-IsValid [] clock now disk tracker v = v
reconcile_all-IsValid (raw ∷ raws) clock now disk tracker v =
    let step = reconcile_one raw clock now (disk (raw ∷ raws)) tracker in
    let w =
      reconcile_entry-IsValid raw.client_order_id raw clock now (disk (raw ∷ raws)) tracker v in
    reconcile_rest-IsValid step (reconcile_all raws clock now disk step.1) w
      (reconcile_all-IsValid raws clock now disk step.1 w)

finish-IsValid :
    (progress : Progress) (now : ℕ) (written : Bool)
    → IsValid progress.1
    → IsValid (finish progress now written).1
finish-IsValid (some error, tracker) now written v = v
finish-IsValid (none, tracker) now written v = save-IsValid written tracker v

pub reconcile-IsValid :
    (raws : List BrokerOrder) (clock now : ℕ) (disk : List BrokerOrder → Bool)
    (tracker : OrderTracker)
    → IsValid tracker
    → IsValid (reconcile raws clock now disk tracker).1
unfolding reconcile
reconcile-IsValid raws clock now disk tracker v =
    finish-IsValid (reconcile_all raws clock now disk tracker) now (disk [])
      (reconcile_all-IsValid raws clock now disk tracker v)
