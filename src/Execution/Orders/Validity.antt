-- ===== src/Execution/Orders/Validity.antt =====
-- What holds of every tracked order between two calls of `OrderTracker`
-- (src/kalshi_bot/execution/order_tracker.py), restarts included.
use Prim.Native.Nat.{min, max}
use kalshi_trading_bot.Prelude.{
  ℕ, ◌-◌, ◌≤◌, ◌<◌, ◌≡◌, Bool, true, false, Option, String, arith, ◌==◌, ok,
}
use kalshi_trading_bot.Execution.Orders.{
  OrderStatus, filled, TrackedOrder, Orders, OrderTracker, remaining, new_order, with_fill,
  with_cancel,
}
use kalshi_trading_bot.Execution.Orders.Reconcile.{
  BrokerOrder, RemoteStatus, merged_status, remote_status, merge,
}
use kalshi_trading_bot.Execution.OrderFile.{load_orders}
use kalshi_trading_bot.Execution.Orders.Table.{AllOrders}

abbrev pub is_filled : OrderStatus → Bool
is_filled filled = true
is_filled _ = false

-- An order is filed under its own id, asks for more than nothing, is never filled beyond what it
-- asks for, and has the status `filled` exactly when nothing remains.
pub record IsValidOrder (id : String) (order : TrackedOrder) : Type 0 where
  pub own_id : order.client_order_id ≡ id
  pub asks : 0 < order.requested_quantity
  pub bounded : order.filled_quantity ≤ order.requested_quantity
  pub filled_iff : is_filled order.status ≡ (remaining order == 0)

-- Every order is valid, and the file can be read and holds valid orders.
pub record IsValid (tracker : OrderTracker) : Type 0 where
  pub orders_valid : AllOrders IsValidOrder tracker.orders
  pub in_file : Orders
  pub readable : load_orders tracker.saved ≡ ok in_file
  pub in_file_valid : AllOrders IsValidOrder in_file

pub new_order-IsValidOrder :
    (id : String) (broker_id : Option String) (ticker : String) (requested now : ℕ)
    → 0 < requested
    → IsValidOrder id (new_order id broker_id ticker requested now)
new_order-IsValidOrder id broker_id ticker requested now pos = ground arith

pub with_fill-IsValidOrder :
    (id : String) (quantity : ℕ) (price : Option ℕ) (now : ℕ) (order : TrackedOrder)
    → IsValidOrder id order
    → IsValidOrder id (with_fill quantity price now order)
with_fill-IsValidOrder id quantity price now order v = ground arith

pub with_cancel-IsValidOrder :
    (id reason : String) (now : ℕ) (order : TrackedOrder)
    → 0 < remaining order
    → IsValidOrder id order
    → IsValidOrder id (with_cancel reason now order)
with_cancel-IsValidOrder id reason now order left v = ground arith

merged-filled :
    (remote : RemoteStatus) (asked before total : ℕ) (own : OrderStatus)
    → is_filled own ≡ (asked - before == 0)
    → before ≤ total
    → is_filled (merged_status remote (asked - total) total own) ≡ (asked - total == 0)
merged-filled remote asked before total own h le = ground arith

merged_grows :
    (asked before reported : ℕ) → before ≤ asked → before ≤ min asked (max before reported)
merged_grows asked before reported h = omega arith

pub merge-IsValidOrder :
    (id : String) (raw : BrokerOrder) (reported now : ℕ) (order : TrackedOrder)
    → IsValidOrder id order
    → IsValidOrder id (merge raw reported now order)
unfolding merge
merge-IsValidOrder id raw reported now order v = record {
  own_id = v.own_id;
  asks = v.asks;
  bounded = omega arith;
  filled_iff =
      merged-filled (remote_status raw.status order.status) order.requested_quantity
        order.filled_quantity (min order.requested_quantity (max order.filled_quantity reported))
        order.status v.filled_iff
        (merged_grows order.requested_quantity order.filled_quantity reported v.bounded);
}
