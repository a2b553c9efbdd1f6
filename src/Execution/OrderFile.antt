-- ===== src/Execution/OrderFile.antt =====
-- The file of `OrderTracker` (src/kalshi_bot/execution/order_tracker.py): `asdict` of an order, and
-- `TrackedOrder(**value)` of what was read. The text is what `json` makes of such a value and reads
-- back; a value of another JSON type than the field's, which the dataclass would keep, is refused.
pub mod Roundtrip
use text.Mathlib.Text.{◌==◌ as str_eq}
use kalshi_trading_bot.Prelude.{
  ℕ, Bool, true, false, Option, none, some, List, [], ◌∷◌, String, if◌then◌else◌, Outcome, ok,
  raised, all, contains, ◌>>=◌,
}
use kalshi_trading_bot.Prelude.Dict.{lookup as field}

pub data OrderStatus : Type 0 where
  pending partial filled cancelled rejected : OrderStatus

-- `TrackedOrder`
pub record TrackedOrder : Type 0 where
  pub client_order_id : String
  pub broker_order_id : Option String
  pub market_ticker : String
  pub requested_quantity : ℕ
  pub filled_quantity : ℕ
  pub status : OrderStatus
  pub created_at_ts : ℕ
  pub updated_at_ts : ℕ
  pub last_fill_price : Option ℕ
  pub cancel_reason : Option String

-- The dictionary `orders`, in insertion order.
abbrev pub Orders : Type 0
Orders = List (String × TrackedOrder)

pub data JsonValue : Type 0 where
  json_null : JsonValue
  json_number : ℕ → JsonValue
  json_text : String → JsonValue

abbrev pub StoredOrder : Type 0
StoredOrder = List (String × JsonValue)

abbrev pub StoredOrders : Type 0
StoredOrders = List (String × StoredOrder)

unfoldable pub status_name : OrderStatus → String
status_name pending = "pending"
status_name partial = "partial"
status_name filled = "filled"
status_name cancelled = "cancelled"
status_name rejected = "rejected"

unfoldable pub named_status : String → Option OrderStatus
named_status name =
    if str_eq name "pending"
    then some pending
    else (if str_eq name "partial"
        then some partial
        else (if str_eq name "filled"
            then some filled
            else (if str_eq name "cancelled"
                then some cancelled
                else (if str_eq name "rejected" then some rejected else none))))

unfoldable pub text_or_null : Option String → JsonValue
text_or_null none = json_null
text_or_null (some s) = json_text s

unfoldable pub number_or_null : Option ℕ → JsonValue
number_or_null none = json_null
number_or_null (some n) = json_number n

-- `asdict`
unfoldable pub as_dict : TrackedOrder → StoredOrder
as_dict order =
    ("client_order_id", json_text order.client_order_id)
    ∷ ("broker_order_id", text_or_null order.broker_order_id)
    ∷ ("market_ticker", json_text order.market_ticker)
    ∷ ("requested_quantity", json_number order.requested_quantity)
    ∷ ("filled_quantity", json_number order.filled_quantity)
    ∷ ("status", json_text (status_name order.status))
    ∷ ("created_at_ts", json_number order.created_at_ts)
    ∷ ("updated_at_ts", json_number order.updated_at_ts)
    ∷ ("last_fill_price", number_or_null order.last_fill_price)
    ∷ ("cancel_reason", text_or_null order.cancel_reason)
    ∷ []

-- The dictionary that `save` dumps.
unfoldable pub stored : Orders → StoredOrders
stored [] = []
stored ((id, order) ∷ orders) = (id, as_dict order) ∷ stored orders

-- A key that is no field, or a field without a default that is missing, or of another type.
pub data LoadError : Type 0 where
  unexpected_key bad_field : LoadError

abbrev pub field_names : List String
field_names =
    "client_order_id" ∷ "broker_order_id" ∷ "market_ticker" ∷ "requested_quantity"
    ∷ "filled_quantity" ∷ "status" ∷ "created_at_ts" ∷ "updated_at_ts" ∷ "last_fill_price"
    ∷ "cancel_reason" ∷ []

abbrev pub text_in : Option JsonValue → Outcome LoadError String
text_in (some (json_text s)) = ok s
text_in _ = raised bad_field

abbrev pub number_in : Option JsonValue → Outcome LoadError ℕ
number_in (some (json_number n)) = ok n
number_in _ = raised bad_field

-- A number whose field has a default.
abbrev pub number_in_or : ℕ → Option JsonValue → Outcome LoadError ℕ
number_in_or default none = ok default
number_in_or default (some value) = number_in (some value)

unfoldable pub nullable_text_in : JsonValue → Outcome LoadError (Option String)
nullable_text_in json_null = ok none
nullable_text_in (json_text s) = ok (some s)
nullable_text_in (json_number n) = raised bad_field

unfoldable pub nullable_number_in : JsonValue → Outcome LoadError (Option ℕ)
nullable_number_in json_null = ok none
nullable_number_in (json_number n) = ok (some n)
nullable_number_in (json_text s) = raised bad_field

abbrev pub required : Option JsonValue → Outcome LoadError JsonValue
required none = raised bad_field
required (some value) = ok value

-- A field that is left out is `None`.
abbrev pub or_null : Option JsonValue → JsonValue
or_null none = json_null
or_null (some value) = value

abbrev pub status_found : Option OrderStatus → Outcome LoadError OrderStatus
status_found none = raised bad_field
status_found (some status) = ok status

abbrev pub status_in : Option JsonValue → Outcome LoadError OrderStatus
status_in none = ok pending
status_in (some (json_text name)) = status_found (named_status name)
status_in (some _) = raised bad_field

abbrev pub fields_of : StoredOrder → Outcome LoadError TrackedOrder
fields_of value = do
  client_order_id ← text_in (field "client_order_id" value)
  broker ← required (field "broker_order_id" value)
  broker_order_id ← nullable_text_in broker
  market_ticker ← text_in (field "market_ticker" value)
  requested_quantity ← number_in (field "requested_quantity" value)
  filled_quantity ← number_in_or 0 (field "filled_quantity" value)
  status ← status_in (field "status" value)
  created_at_ts ← number_in_or 0 (field "created_at_ts" value)
  updated_at_ts ← number_in_or 0 (field "updated_at_ts" value)
  last_fill_price ← nullable_number_in (or_null (field "last_fill_price" value))
  cancel_reason ← nullable_text_in (or_null (field "cancel_reason" value))
  ok (record {
    client_order_id = client_order_id;
    broker_order_id = broker_order_id;
    market_ticker = market_ticker;
    requested_quantity = requested_quantity;
    filled_quantity = filled_quantity;
    status = status;
    created_at_ts = created_at_ts;
    updated_at_ts = updated_at_ts;
    last_fill_price = last_fill_price;
    cancel_reason = cancel_reason;
  })

-- `TrackedOrder(**value)`
unfoldable pub from_dict : StoredOrder → Outcome LoadError TrackedOrder
from_dict value =
    if all (λ (entry : String × JsonValue). contains field_names entry.0) value
    then fields_of value
    else raised unexpected_key

-- The dictionary that `load` builds.
unfoldable pub load_orders : StoredOrders → Outcome LoadError Orders
load_orders [] = ok []
load_orders ((id, value) ∷ rest) = do
  order ← from_dict value
  orders ← load_orders rest
  ok ((id, order) ∷ orders)
