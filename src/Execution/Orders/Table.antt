-- ===== src/Execution/Orders/Table.antt =====
-- The dictionary of `OrderTracker` (src/kalshi_bot/execution/order_tracker.py).
use text.Mathlib.Text.{◌==◌ as str_eq}
use text.Mathlib.TextEquality.{eq_iff}
use mathlib.Core.Option.{some-injective}
use kalshi_trading_bot.Prelude.{
  ◌≡◌, Bool, sym, subst, refl, true, false, Option, some, [], ◌∷◌, String, if◌then◌else◌, arith,
}
use kalshi_trading_bot.Execution.Orders.{TrackedOrder, Orders, lookup, insert}

pub lookup-insert :
    (id other : String) (order : TrackedOrder) (orders : Orders)
    → lookup other (insert id order orders)
      ≡ (if str_eq id other then some order else lookup other orders)
unfolding lookup insert
lookup-insert id other order [] = refl
lookup-insert id other order ((key, old) ∷ orders) =
    ground
      (arith, eq_iff id other, eq_iff key id, eq_iff key other, lookup-insert id other order orders)

-- A predicate of every entry, by its key.
abbrev pub AllOrders : (String → TrackedOrder → Type 0) → Orders → Type 0
AllOrders P [] = Unit
AllOrders P ((key, order) ∷ orders) = P key order × AllOrders P orders

insert_step :
    (P : String → TrackedOrder → Type 0) (same : Bool) (id key : String) (order old : TrackedOrder)
    (orders rest : Orders)
    → (same ≡ true → key ≡ id)
    → P id order
    → P key old
    → AllOrders P orders
    → AllOrders P rest
    → AllOrders P (if same then (key, order) ∷ orders else (key, old) ∷ rest)
insert_step P true id key order old orders rest e p q h k =
    (subst (λ j. P j order) (sym (e refl)) p, h)
insert_step P false id key order old orders rest e p q h k = (q, k)

pub AllOrders-insert :
    (P : String → TrackedOrder → Type 0) (id : String) (order : TrackedOrder) (orders : Orders)
    → P id order
    → AllOrders P orders
    → AllOrders P (insert id order orders)
unfolding insert
AllOrders-insert P id order [] p h = (p, tt)
AllOrders-insert P id order ((key, old) ∷ orders) p (q, h) =
    insert_step P (str_eq key id) id key order old orders (insert id order orders) (eq_iff key id).0
      p q h (AllOrders-insert P id order orders p h)

lookup_step :
    (P : String → TrackedOrder → Type 0) (same : Bool) (id key : String) (order old : TrackedOrder)
    (found : Option TrackedOrder)
    → (same ≡ true → key ≡ id)
    → P key old
    → (found ≡ some order → P id order)
    → (if same then some old else found) ≡ some order
    → P id order
lookup_step P true id key order old found e q rest h =
    subst (P id) (some-injective _ _ h) (subst (λ j. P j old) (e refl) q)
lookup_step P false id key order old found e q rest h = rest h

pub AllOrders-lookup :
    (P : String → TrackedOrder → Type 0) (id : String) (order : TrackedOrder) (orders : Orders)
    → lookup id orders ≡ some order
    → AllOrders P orders
    → P id order
unfolding lookup
AllOrders-lookup P id order [] e h = cc
AllOrders-lookup P id order ((key, old) ∷ orders) e (q, h) =
    lookup_step P (str_eq key id) id key order old (lookup id orders) (eq_iff key id).0 q
      (λ found. AllOrders-lookup P id order orders found h) e
