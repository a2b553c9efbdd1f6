-- ===== src/Execution/Orders/Durable.antt =====
-- What a restart of `OrderTracker` gives back (src/kalshi_bot/execution/order_tracker.py).
use text.Mathlib.Text.{◌==◌ as str_eq}
use kalshi_trading_bot.Prelude.{
  ℕ, if_both, Outcome, raised, ltb, ok, ◌≡◌, refl, subst, sym, Bool, true, false, not, ◌||◌, All,
  Option, none, some, List, [], ◌∷◌, String, ◌==◌,
}
use kalshi_trading_bot.Execution.OrderFile.Roundtrip.{load_orders-stored}
use kalshi_trading_bot.Execution.Orders.{
  TrackedOrder, OrderTracker, lookup, load, save, store, replace_orders, insert, TrackerError,
  different_details, bad_quantity, register, register_at, record_fill, record_fill_at,
  mark_cancelled, cancel_stale, stale_orders, mark_cancelled_at, remaining, new_order, with_fill,
  with_cancel, cancel_each, goes_on,
}
use kalshi_trading_bot.Execution.Orders.Reconcile.{
  BrokerOrder, Progress, reconcile_all, finish, reconcile,
}
use kalshi_trading_bot.Execution.Orders.Undisturbed.{IsReadable, GoesOn, reconcile_all-GoesOn}
use kalshi_trading_bot.Execution.Orders.Effects.{
  Call, registers, fills, cancels, cancels_stale, reconciles, restarts, restarted, after, after_all,
}

-- A new process would hold what this one holds.
abbrev pub IsDurable : OrderTracker → Type 0
IsDurable tracker = load tracker ≡ ok tracker

-- Every save of the call is let through, and every payload can be read.
abbrev pub IsUndisturbed : Call → Type 0
IsUndisturbed (registers id ticker requested broker_id now written) = written ≡ true
IsUndisturbed (fills id quantity price now written) = written ≡ true
IsUndisturbed (cancels id reason now written) = written ≡ true
IsUndisturbed (cancels_stale cancel disk max_age now clock) =
    (left : List TrackedOrder) → disk left ≡ true
IsUndisturbed (reconciles raws clock now disk) =
    All IsReadable raws × ((left : List BrokerOrder) → disk left ≡ true)
IsUndisturbed restarts = Unit

save-IsDurable :
    (written : Bool) (tracker : OrderTracker) → written ≡ true → IsDurable (save written tracker)
unfolding load
save-IsDurable true tracker e = rw (load_orders-stored tracker.orders) refl
save-IsDurable false tracker e = cc

abbrev IsDurableResult : Outcome TrackerError TrackedOrder × OrderTracker → Type 0
IsDurableResult (outcome, tracker) = IsDurable tracker

store-IsDurable :
    (written : Bool) (id : String) (order : TrackedOrder) (tracker : OrderTracker)
    → written ≡ true
    → IsDurable (store written id order tracker).1
store-IsDurable written id order tracker e =
    save-IsDurable written (replace_orders (insert id order tracker.orders) tracker) e

register_at-IsDurable :
    (found : Option TrackedOrder) (id ticker : String) (requested : ℕ) (broker_id : Option String)
    (now : ℕ) (written : Bool) (tracker : OrderTracker)
    → written ≡ true
    → IsDurable tracker
    → IsDurable (register_at found id ticker requested broker_id now written tracker).1
register_at-IsDurable (some existing) id ticker requested broker_id now written tracker e d =
    if_both IsDurableResult
      (not (str_eq existing.market_ticker ticker) || not (existing.requested_quantity == requested))
      (raised different_details, tracker) (ok existing, tracker) (λ _. d) (λ _. d)
register_at-IsDurable none id ticker requested broker_id now written tracker e d =
    store-IsDurable written id (new_order id broker_id ticker requested now) tracker e

record_fill_at-IsDurable :
    (found : Option TrackedOrder) (id : String) (quantity : ℕ) (price : Option ℕ) (now : ℕ)
    (written : Bool) (tracker : OrderTracker)
    → written ≡ true
    → IsDurable tracker
    → IsDurable (record_fill_at found id quantity price now written tracker).1
record_fill_at-IsDurable none id quantity price now written tracker e d = d
record_fill_at-IsDurable (some order) id quantity price now written tracker e d =
    store-IsDurable written id (with_fill quantity price now order) tracker e

mark_cancelled_at-IsDurable :
    (found : Option TrackedOrder) (id reason : String) (now : ℕ) (written : Bool)
    (tracker : OrderTracker)
    → written ≡ true
    → IsDurable tracker
    → IsDurable (mark_cancelled_at found id reason now written tracker).1
mark_cancelled_at-IsDurable none id reason now written tracker e d = d
mark_cancelled_at-IsDurable (some order) id reason now written tracker e d =
    if_both IsDurableResult (ltb 0 (remaining order))
      (store written id (with_cancel reason now order) tracker) (ok order, tracker)
      (λ _. store-IsDurable written id (with_cancel reason now order) tracker e) (λ _. d)

goes_on-IsDurable :
    (outcome : Outcome TrackerError TrackedOrder) (next : OrderTracker) (rest : Bool × OrderTracker)
    → IsDurable next
    → IsDurable rest.1
    → IsDurable (goes_on outcome next rest).1
goes_on-IsDurable (ok order) next rest v w = w
goes_on-IsDurable (raised error) next rest v w = v

cancel_each-IsDurable :
    (cancel : TrackedOrder → Bool) (disk : List TrackedOrder → Bool) (stale : List TrackedOrder)
    (now : ℕ) (tracker : OrderTracker)
    → ((left : List TrackedOrder) → disk left ≡ true)
    → IsDurable tracker
    → IsDurable (cancel_each cancel disk stale now tracker).1
unfolding cancel_each mark_cancelled
cancel_each-IsDurable cancel disk [] now tracker e d = d
cancel_each-IsDurable cancel disk (order ∷ stale) now tracker e d =
    let id = order.client_order_id in
    let marked = mark_cancelled id "stale_order" now (disk stale) tracker in
    let rest = cancel_each cancel disk stale now marked.1 in
    let w =
      mark_cancelled_at-IsDurable (lookup id tracker.orders) id "stale_order" now (disk stale)
        tracker (e stale) d in
    if_both (λ (r : Bool × OrderTracker). IsDurable r.1) (cancel order)
      (goes_on marked.0 marked.1 rest) (false, tracker)
      (λ _.
        goes_on-IsDurable marked.0 marked.1 rest w
          (cancel_each-IsDurable cancel disk stale now marked.1 e w))
      (λ _. d)

finish-IsDurable :
    (progress : Progress) (now : ℕ) (written : Bool)
    → GoesOn progress
    → written ≡ true
    → IsDurable (finish progress now written).1
finish-IsDurable (none, tracker) now written g e = save-IsDurable written tracker e
finish-IsDurable (some error, tracker) now written g e = cc

after-IsDurable :
    (call : Call) (tracker : OrderTracker)
    → IsUndisturbed call
    → IsDurable tracker
    → IsDurable (after call tracker)
unfolding after cancel_stale register record_fill mark_cancelled reconcile
after-IsDurable (registers id ticker requested broker_id now written) tracker u d =
    if_both IsDurableResult (requested == 0) (raised bad_quantity, tracker)
      (register_at (lookup id tracker.orders) id ticker requested broker_id now written tracker)
      (λ _. d)
      (λ _.
        register_at-IsDurable (lookup id tracker.orders) id ticker requested broker_id now written
          tracker u d)
after-IsDurable (fills id quantity price now written) tracker u d =
    if_both IsDurableResult (quantity == 0) (raised bad_quantity, tracker)
      (record_fill_at (lookup id tracker.orders) id quantity price now written tracker) (λ _. d)
      (λ _.
        record_fill_at-IsDurable (lookup id tracker.orders) id quantity price now written tracker u
          d)
after-IsDurable (cancels id reason now written) tracker u d =
    mark_cancelled_at-IsDurable (lookup id tracker.orders) id reason now written tracker u d
after-IsDurable (cancels_stale cancel disk max_age now clock) tracker u d =
    cancel_each-IsDurable cancel disk (stale_orders now max_age tracker.orders) clock tracker u d
after-IsDurable (reconciles raws clock now disk) tracker (readable, u) d =
    finish-IsDurable (reconcile_all raws clock now disk tracker) now (disk [])
      (reconcile_all-GoesOn raws clock now disk tracker readable u) (u [])
after-IsDurable restarts tracker u d = subst (λ read. IsDurable (restarted read tracker)) (sym d) d

-- A restart loses nothing: if a new process would hold what this one holds, it would do so after any
-- sequence of calls and restarts in which every save is let through and every payload of `reconcile`
-- can be read; calls that raise for another reason, and a `cancel` that raises, are among them.
pub load-after_all :
    (calls : List Call) (tracker : OrderTracker)
    → All IsUndisturbed calls
    → load tracker ≡ ok tracker
    → load (after_all calls tracker) ≡ ok (after_all calls tracker)
unfolding after_all
load-after_all [] tracker u d = d
load-after_all (call ∷ calls) tracker (first, u) d =
    load-after_all calls (after call tracker) u (after-IsDurable call tracker first d)
