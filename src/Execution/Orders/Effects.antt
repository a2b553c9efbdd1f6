-- ===== src/Execution/Orders/Effects.antt =====
-- Sequences of calls of `OrderTracker` (src/kalshi_bot/execution/order_tracker.py), with restarts
-- between them.
use kalshi_trading_bot.Prelude.{
  ℕ, Bool, Option, String, List, [], ◌∷◌, sym, subst, Outcome, ok, raised,
}
use kalshi_trading_bot.Execution.Orders.{
  TrackedOrder, OrderTracker, TrackerError, load, register, record_fill, mark_cancelled,
  cancel_stale, stale_orders,
}
use kalshi_trading_bot.Execution.Orders.Reconcile.{BrokerOrder, reconcile}
use kalshi_trading_bot.Execution.Orders.Validity.{IsValid}
use kalshi_trading_bot.Execution.Orders.Preserved.{
  register-IsValid, record_fill-IsValid, mark_cancelled-IsValid, cancel_each-IsValid, load_lem,
  loaded-IsValid,
}
use kalshi_trading_bot.Execution.Orders.Reconciled.{reconcile-IsValid}

-- A call, with what the clock returns and whether its saves are let through; `restarts` is a new
-- process, which loads the file.
pub data Call : Type 0 where
  registers : String → String → ℕ → Option String → ℕ → Bool → Call
  fills : String → ℕ → Option ℕ → ℕ → Bool → Call
  cancels : String → String → ℕ → Bool → Call
  cancels_stale : (TrackedOrder → Bool) → (List TrackedOrder → Bool) → ℕ → ℕ → ℕ → Call
  reconciles : List BrokerOrder → ℕ → ℕ → (List BrokerOrder → Bool) → Call
  restarts : Call

-- A process that cannot load the file ends, and leaves things as they are.
abbrev pub restarted : Outcome TrackerError OrderTracker → OrderTracker → OrderTracker
restarted (ok next) tracker = next
restarted (raised error) tracker = tracker

unfoldable pub after : Call → OrderTracker → OrderTracker
after (registers id ticker requested broker_id now written) tracker =
    (register id ticker requested broker_id now written tracker).1
after (fills id quantity price now written) tracker =
    (record_fill id quantity price now written tracker).1
after (cancels id reason now written) tracker = (mark_cancelled id reason now written tracker).1
after (cancels_stale cancel disk max_age now clock) tracker =
    (cancel_stale cancel disk max_age now clock tracker).1
after (reconciles raws clock now disk) tracker = (reconcile raws clock now disk tracker).1
after restarts tracker = restarted (load tracker) tracker

unfoldable pub after_all : List Call → OrderTracker → OrderTracker
after_all [] tracker = tracker
after_all (call ∷ calls) tracker = after_all calls (after call tracker)

after-IsValid :
    (call : Call) (tracker : OrderTracker) → IsValid tracker → IsValid (after call tracker)
unfolding after cancel_stale
after-IsValid (registers id ticker requested broker_id now written) tracker v =
    register-IsValid id ticker requested broker_id now written tracker v
after-IsValid (fills id quantity price now written) tracker v =
    record_fill-IsValid id quantity price now written tracker v
after-IsValid (cancels id reason now written) tracker v =
    mark_cancelled-IsValid id reason now written tracker v
after-IsValid (cancels_stale cancel disk max_age now clock) tracker v =
    cancel_each-IsValid cancel disk (stale_orders now max_age tracker.orders) clock tracker v
after-IsValid (reconciles raws clock now disk) tracker v =
    reconcile-IsValid raws clock now disk tracker v
after-IsValid restarts tracker v =
    subst (λ read. IsValid (restarted read tracker)) (sym (load_lem tracker v))
      (loaded-IsValid tracker v)

-- From a valid tracker, every sequence of calls and restarts leads to a valid tracker, also where calls
-- raise halfway, since a payload is not a number or a save fails: each order in memory is filed under
-- its own id, asks for more than nothing, is filled at most to what it asks for, and is `filled`
-- exactly when nothing remains; and the file can be loaded, and gives orders of which the same holds.
pub after_all-IsValid :
    (calls : List Call) (tracker : OrderTracker)
    → IsValid tracker
    → IsValid (after_all calls tracker)
unfolding after_all
after_all-IsValid [] tracker v = v
after_all-IsValid (call ∷ calls) tracker v =
    after_all-IsValid calls (after call tracker) (after-IsValid call tracker v)
