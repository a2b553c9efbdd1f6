-- ===== src/Execution/OrderFile/Roundtrip.antt =====
-- An order that is written and read again is the same order
-- (src/kalshi_bot/execution/order_tracker.py).
use kalshi_trading_bot.Prelude.{ℕ, Option, none, some, [], ◌∷◌, String, ◌≡◌, refl, ok}
use kalshi_trading_bot.Prelude.Dict.{lookup as field}
use kalshi_trading_bot.Prelude.Text.{contains}
use kalshi_trading_bot.Execution.OrderFile.{
  OrderStatus, pending, partial, filled, cancelled, rejected, TrackedOrder, Orders, status_name,
  named_status, text_or_null, number_or_null, nullable_text_in, nullable_number_in, as_dict, stored,
  from_dict, load_orders,
}

named_status-status_name : (status : OrderStatus) → named_status (status_name status) ≡ some status
unfolding named_status status_name
named_status-status_name pending = refl
named_status-status_name partial = refl
named_status-status_name filled = refl
named_status-status_name cancelled = refl
named_status-status_name rejected = refl

nullable_text : (o : Option String) → nullable_text_in (text_or_null o) ≡ ok o
unfolding nullable_text_in text_or_null
nullable_text none = refl
nullable_text (some s) = refl

nullable_number : (o : Option ℕ) → nullable_number_in (number_or_null o) ≡ ok o
unfolding nullable_number_in number_or_null
nullable_number none = refl
nullable_number (some n) = refl

pub from_dict-as_dict : (order : TrackedOrder) → from_dict (as_dict order) ≡ ok order
unfolding from_dict as_dict field contains
from_dict-as_dict order =
    rw
      (
        nullable_text order.broker_order_id,
        named_status-status_name order.status,
        nullable_number order.last_fill_price,
        nullable_text order.cancel_reason,
      )
      refl

pub load_orders-stored : (orders : Orders) → load_orders (stored orders) ≡ ok orders
unfolding load_orders stored
load_orders-stored [] = refl
load_orders-stored ((id, order) ∷ orders) =
    rw (from_dict-as_dict order, load_orders-stored orders) refl
