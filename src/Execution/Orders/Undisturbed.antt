-- ===== src/Execution/Orders/Undisturbed.antt =====
-- The loop of `reconcile` (src/kalshi_bot/execution/order_tracker.py) where nothing raises.
use kalshi_trading_bot.Prelude.{
  ℕ, if_both, ◌≡◌, refl, subst, sym, Bool, true, false, All, Option, none, some, List, [], ◌∷◌,
  String, ◌==◌, is_empty_text,
}
use kalshi_trading_bot.Execution.Orders.{TrackedOrder, OrderTracker, lookup, store, new_order}
use kalshi_trading_bot.Execution.Orders.Reconcile.{
  BrokerOrder, Amount, amount, below_zero, unreadable, Progress, requested_of, ticker_of, filled_of,
  merge_amount, merge_into, adopt, reconcile_amount, reconcile_entry, reconcile_one, reconcile_rest,
  reconcile_all,
}
use kalshi_trading_bot.Execution.Orders.Reconciled.{register_new}

-- The numbers of a payload can be read, whatever the order's own filled quantity is.
abbrev pub IsReadable : BrokerOrder → Type 0
IsReadable raw =
    ¬ (requested_of raw ≡ unreadable) × ((own : ℕ) → ¬ (filled_of raw own ≡ unreadable))

-- The loop of `reconcile` went on.
abbrev pub GoesOn : Progress → Type 0
GoesOn (error, tracker) = error ≡ none

merge_amount-GoesOn :
    (reported : Amount) (id : String) (raw : BrokerOrder) (now : ℕ) (order : TrackedOrder)
    (tracker : OrderTracker)
    → ¬ (reported ≡ unreadable)
    → GoesOn (merge_amount reported id raw now order tracker)
merge_amount-GoesOn (amount n) id raw now order tracker h = refl
merge_amount-GoesOn below_zero id raw now order tracker h = refl
merge_amount-GoesOn unreadable id raw now order tracker h = absurd (h refl)

stored-GoesOn :
    (written : Bool) (id : String) (raw : BrokerOrder) (now : ℕ) (order : TrackedOrder)
    (tracker : OrderTracker)
    → IsReadable raw
    → written ≡ true
    → GoesOn (merge_into (store written id order tracker) id raw now)
stored-GoesOn true id raw now order tracker r e =
    merge_amount-GoesOn (filled_of raw order.filled_quantity) id raw now order
      (store true id order tracker).1 (r.1 order.filled_quantity)
stored-GoesOn false id raw now order tracker r e = cc

adopt-GoesOn :
    (found : Option TrackedOrder) (id : String) (requested : ℕ) (raw : BrokerOrder) (clock now : ℕ)
    (written : Bool) (tracker : OrderTracker)
    → IsReadable raw
    → written ≡ true
    → requested == 0 ≡ false
    → lookup id tracker.orders ≡ found
    → GoesOn (merge_into (adopt found id requested raw clock written tracker) id raw now)
adopt-GoesOn (some order) id requested raw clock now written tracker r e asked known =
    merge_amount-GoesOn (filled_of raw order.filled_quantity) id raw now order tracker
      (r.1 order.filled_quantity)
adopt-GoesOn none id requested raw clock now written tracker r e asked unknown =
    subst (λ adopted. GoesOn (merge_into adopted id raw now))
      (sym (
        register_new id (ticker_of raw) requested raw.order_id clock written tracker asked unknown))
      (stored-GoesOn written id raw now (new_order id raw.order_id (ticker_of raw) requested clock)
        tracker r e)

reconcile_amount-GoesOn :
    (requested : Amount) (id : String) (raw : BrokerOrder) (clock now : ℕ) (written : Bool)
    (tracker : OrderTracker)
    → IsReadable raw
    → written ≡ true
    → ¬ (requested ≡ unreadable)
    → GoesOn (reconcile_amount requested id raw clock now written tracker)
reconcile_amount-GoesOn unreadable id raw clock now written tracker r e h = absurd (h refl)
reconcile_amount-GoesOn below_zero id raw clock now written tracker r e h = refl
reconcile_amount-GoesOn (amount requested) id raw clock now written tracker r e h =
    if_both GoesOn (requested == 0) (none, tracker)
      (merge_into (adopt (lookup id tracker.orders) id requested raw clock written tracker) id raw
        now)
      (λ _. refl)
      (λ asked.
        adopt-GoesOn (lookup id tracker.orders) id requested raw clock now written tracker r e asked
          refl)

reconcile_entry-GoesOn :
    (id : Option String) (raw : BrokerOrder) (clock now : ℕ) (written : Bool)
    (tracker : OrderTracker)
    → IsReadable raw
    → written ≡ true
    → GoesOn (reconcile_entry id raw clock now written tracker)
reconcile_entry-GoesOn none raw clock now written tracker r e = refl
reconcile_entry-GoesOn (some id) raw clock now written tracker r e =
    if_both GoesOn (is_empty_text id) (none, tracker)
      (reconcile_amount (requested_of raw) id raw clock now written tracker) (λ _. refl)
      (λ _. reconcile_amount-GoesOn (requested_of raw) id raw clock now written tracker r e r.0)

reconcile_rest-GoesOn :
    (step rest : Progress) → GoesOn step → GoesOn rest → GoesOn (reconcile_rest step rest)
reconcile_rest-GoesOn (none, next) rest v w = w
reconcile_rest-GoesOn (some error, next) rest v w = cc

pub reconcile_all-GoesOn :
    (raws : List BrokerOrder) (clock now : ℕ) (disk : List BrokerOrder → Bool)
    (tracker : OrderTracker)
    → All IsReadable raws
    → ((left : List BrokerOrder) → disk left ≡ true)
    → GoesOn (reconcile_all raws clock now disk tracker)
unfolding reconcile_all reconcile_one
reconcile_all-GoesOn [] clock now disk tracker r e = refl
reconcile_all-GoesOn (raw ∷ raws) clock now disk tracker (r, rs) e =
    let step = reconcile_one raw clock now (disk (raw ∷ raws)) tracker in
    reconcile_rest-GoesOn step (reconcile_all raws clock now disk step.1)
      (reconcile_entry-GoesOn raw.client_order_id raw clock now (disk (raw ∷ raws)) tracker r
        (e (raw ∷ raws)))
      (reconcile_all-GoesOn raws clock now disk step.1 rs e)
