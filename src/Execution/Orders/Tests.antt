-- ===== src/Execution/Orders/Tests.antt =====
-- The order tracker on a concrete sequence of calls.
use kalshi_trading_bot.Prelude.{
  ℕ, true, false, Option, none, some, List, [], ◌∷◌, ◌≡◌, refl, ok, Outcome,
}
use kalshi_trading_bot.Execution.OrderFile.{load_orders}
use kalshi_trading_bot.Execution.Orders.{
  OrderTracker, TrackedOrder, TrackerError, lookup, load, register, insert,
}
use kalshi_trading_bot.Execution.Orders.Reconcile.{
  BrokerOrder, amount, unreadable, reconcile, reconcile_all, reconcile_one, merge,
}
use kalshi_trading_bot.Execution.Orders.Validity.{IsValid}
use kalshi_trading_bot.Execution.Orders.Effects.{
  Call, registers, fills, cancels, cancels_stale, reconciles, restarts, after, after_all,
  after_all-IsValid,
}
use kalshi_trading_bot.Execution.Orders.Undisturbed.{IsReadable}
use kalshi_trading_bot.Execution.Orders.Durable.{load-after_all}

abbrev nothing_tracked : OrderTracker
nothing_tracked = record { orders = []; saved = [] }

loads_nothing : load_orders [] ≡ ok []
unfolding load_orders
loads_nothing = refl

nothing-loads : load nothing_tracked ≡ ok nothing_tracked
unfolding load load_orders
nothing-loads = refl

nothing-IsValid : IsValid nothing_tracked
nothing-IsValid = record {
  orders_valid = tt;
  in_file = [];
  readable = loads_nothing;
  in_file_valid = tt;
}

abbrev remote : BrokerOrder
remote = record {
  client_order_id = some "c2";
  order_id = some "b2";
  requested_quantity = none;
  count = some (amount 5);
  market_ticker = none;
  ticker = some "KXBTC";
  filled_quantity = none;
  filled_count = some (amount 7);
  status = some "Canceled";
}

-- Its filled quantity is null.
abbrev unreadable_fill : BrokerOrder
unreadable_fill = record remote { filled_quantity = some unreadable }

abbrev opening : List Call
opening =
    registers "c1" "KXETH" 10 none 100 true
    ∷ fills "c1" 4 (some 55) 110 true
    ∷ restarts
    ∷ reconciles (remote ∷ []) 120 120 (λ left. true)
    ∷ fills "c1" 9 none 130 true
    ∷ cancels "c9" "gone" 140 true
    ∷ cancels_stale (λ order. true) (λ left. true) 30 150 151
    ∷ []

-- Saves fail, and a payload cannot be read.
abbrev disturbed : List Call
disturbed =
    registers "c3" "KXETH" 10 none 100 false
    ∷ registers "c3" "KXETH" 10 none 101 true
    ∷ fills "c3" 4 none 102 false
    ∷ reconciles (remote ∷ unreadable_fill ∷ []) 120 120 (λ left. true)
    ∷ restarts
    ∷ []

after_all-IsValid_example : IsValid (after_all disturbed nothing_tracked)
after_all-IsValid_example = after_all-IsValid disturbed nothing_tracked nothing-IsValid

remote-IsReadable : IsReadable remote
remote-IsReadable = ((λ h. cc), (λ own. λ h. cc))

load-after_all_example :
    load (after_all opening nothing_tracked) ≡ ok (after_all opening nothing_tracked)
load-after_all_example =
    load-after_all opening nothing_tracked
      (
        refl,
        (
          refl,
          (tt, (((remote-IsReadable, tt), (λ left. refl)), (refl, (refl, ((λ left. refl), tt))))),
        ),
      )
      nothing-loads

-- A payload that cannot be read stops `reconcile` before its save: the fill of the payload before it is
-- in memory and not in the file.
abbrev c1_filled : BrokerOrder
c1_filled = record remote {
  client_order_id = some "c1";
  count = some (amount 10);
  filled_quantity = some (amount 6);
  status = some "open";
}

abbrev one_order : OrderTracker
one_order = after_all (registers "c1" "KXBTC" 10 none 100 true ∷ []) nothing_tracked

abbrev stopped : Outcome TrackerError (List TrackedOrder) × OrderTracker
stopped =
    reconcile (c1_filled ∷ record unreadable_fill { client_order_id = some "c1" } ∷ []) 120 120
      (λ left. true) one_order

abbrev filled_in : Option TrackedOrder → Option ℕ
filled_in none = none
filled_in (some order) = some order.filled_quantity

fill_in_memory_test : filled_in (lookup "c1" stopped.1.orders) ≡ some 6
unfolding lookup reconcile reconcile_all reconcile_one after_all after register insert merge
fill_in_memory_test = refl

fill_not_in_file_test : stopped.1.saved ≡ one_order.saved
unfolding lookup reconcile reconcile_all reconcile_one after_all after register insert merge
fill_not_in_file_test = refl
