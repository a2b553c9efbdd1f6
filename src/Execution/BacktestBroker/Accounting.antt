-- ===== src/Execution/BacktestBroker/Accounting.antt =====
-- The money of `BacktestBroker` (src/kalshi_bot/execution/backtest_broker.py), over any sequence of calls.
use kalshi_trading_bot.Prelude.{
  ℕ, ◌+◌, ◌*◌, ◌≡◌, refl, ap, sym, ◌∙◌, false, Option, none, some, List, [], ◌∷◌, ◌++◌, String,
  arith, if_both, is_some, is_some-none, if◌then◌else◌,
}
use kalshi_trading_bot.Prelude.Dict.{
  lookup, put, remove, IsDict, IsDict-put, IsDict-remove, total, total-put_new, total-remove,
}
use kalshi_trading_bot.Prelude.Int.{
  ℤ, pos, ◌+ℤ◌, ◌-ℤ◌, ◌≤ℤ◌, ltb_ℤ, int_laws, parts_of_eq, +ℤ_assoc,
}
use kalshi_trading_bot.Signals.Fees.Rounding.{taker_fee-le-stake}
use kalshi_trading_bot.Execution.Broker.{
  OrderRequest, OrderStatus, RejectReason, was_rejected, position_already_open,
  maker_unfilled_no_validated_model, is_maker,
}
use kalshi_trading_bot.Execution.BacktestBroker.{
  BacktestBroker, MarketBar, OpenPosition, Settlement, paid, void_at, close_at, settle_at, place_on,
  fill_with, fill_by, fill_refusal, bought, fill_price, closed, settled, payout,
}

abbrev pub net_total : List Settlement → ℤ
net_total [] = pos 0
net_total (settlement ∷ settlements) = settlement.net_pnl +ℤ net_total settlements

net_total-snoc :
    (settlements : List Settlement) (s : Settlement)
    → net_total (settlements ++ s ∷ []) ≡ net_total settlements +ℤ s.net_pnl
net_total-snoc [] s = omega int_laws
net_total-snoc (x ∷ settlements) s =
    ap (λ n. x.net_pnl +ℤ n) (net_total-snoc settlements s)
    ∙ sym (+ℤ_assoc x.net_pnl (net_total settlements) s.net_pnl)

-- What the open positions took to open.
abbrev pub invested : BacktestBroker → ℕ
invested broker = total paid broker.positions

-- The cash and the cost of the open positions are the start and the settled results; the cash is
-- not below zero; and a market has at most one position.
pub record IsBalanced (start : ℤ) (broker : BacktestBroker) : Type 0 where
  pub balance : broker.cash +ℤ pos (invested broker) ≡ start +ℤ net_total broker.settlements
  pub solvent : pos 0 ≤ℤ broker.cash
  pub one_each : IsDict broker.positions

affordable-le : (cash : ℤ) (cost : ℕ) → ltb_ℤ cash (pos cost) ≡ false → pos cost ≤ℤ cash
affordable-le cash cost h = ground arith

-- Cash that grows by what a position took out, and by a result that is booked, keeps the balance.
freed_balance :
    (start cash gain booked net : ℤ) (before after cost : ℕ)
    → after + cost ≡ before
    → gain ≡ pos cost +ℤ net
    → cash +ℤ pos before ≡ start +ℤ booked
    → cash +ℤ gain +ℤ pos after ≡ start +ℤ (booked +ℤ net)
freed_balance start cash gain booked net before after cost freed e b =
    let e' = parts_of_eq gain (pos cost +ℤ net) e in
    let b' = parts_of_eq (cash +ℤ pos before) (start +ℤ booked) b in omega (int_laws, e', b')

refused_unpaid :
    (order : OrderRequest) (price : ℕ) (bar : MarketBar) (broker : BacktestBroker)
    → fill_refusal order price bar broker ≡ none
    → ltb_ℤ broker.cash (pos (paid (bought order price bar broker))) ≡ false
refused_unpaid order price bar broker passed = ground arith

module _ (start : ℤ) (broker : BacktestBroker) (b : IsBalanced start broker) where
  pub void_at-IsBalanced :
      (found : Option OpenPosition) (ticker : String)
      → lookup ticker broker.positions ≡ found
      → IsBalanced start (void_at found ticker broker)
  void_at-IsBalanced none ticker e = b
  void_at-IsBalanced (some position) ticker e =
      let freed = total-remove paid ticker position broker.positions b.one_each e in
      let balance =
        parts_of_eq (broker.cash +ℤ pos (invested broker)) (start +ℤ net_total broker.settlements)
          b.balance in
      record {
        balance = omega (int_laws, balance, freed);
        solvent = omega (int_laws, b.solvent);
        one_each = IsDict-remove ticker broker.positions b.one_each;
      }

  pub settle_at-IsBalanced :
      (found : Option OpenPosition) (ticker result : String) (settled_ts : ℕ)
      → lookup ticker broker.positions ≡ found
      → IsBalanced start (settle_at found ticker result settled_ts broker)
  settle_at-IsBalanced none ticker result settled_ts e = b
  settle_at-IsBalanced (some position) ticker result settled_ts e =
      let freed = total-remove paid ticker position broker.positions b.one_each e in
      let s = settled position ticker result settled_ts in
      record {
        balance = rw (net_total-snoc broker.settlements s) (
            freed_balance start broker.cash (pos (payout s.won position.quantity))
              (net_total broker.settlements) s.net_pnl (invested broker)
              (total paid (remove ticker broker.positions)) (paid position) freed (omega int_laws)
              b.balance);
        solvent = omega (int_laws, b.solvent);
        one_each = IsDict-remove ticker broker.positions b.one_each;
      }

  pub close_at-IsBalanced :
      (found : Option OpenPosition) (ticker : String) (exit_price exit_ts : ℕ)
      → lookup ticker broker.positions ≡ found
      → IsBalanced start (close_at found ticker exit_price exit_ts broker).1
  close_at-IsBalanced none ticker exit_price exit_ts e = b
  close_at-IsBalanced (some position) ticker exit_price exit_ts e =
      let freed = total-remove paid ticker position broker.positions b.one_each e in
      let s = closed position ticker exit_price exit_ts in
      let fee = taker_fee-le-stake exit_price position.quantity in
      record {
        balance = rw (net_total-snoc broker.settlements s) (
            freed_balance start broker.cash (pos (exit_price * position.quantity) -ℤ pos s.exit_fee)
              (net_total broker.settlements) s.net_pnl (invested broker)
              (total paid (remove ticker broker.positions)) (paid position) freed (omega int_laws)
              b.balance);
        solvent = omega (int_laws, b.solvent, fee);
        one_each = IsDict-remove ticker broker.positions b.one_each;
      }

  abbrev IsBalancedResult : OrderStatus × BacktestBroker → Type 0
  IsBalancedResult (status, next) = IsBalanced start next

  bought-IsBalanced :
      (ticker : String) (position : OpenPosition)
      → lookup ticker broker.positions ≡ none
      → ltb_ℤ broker.cash (pos (paid position)) ≡ false
      → IsBalanced start (record broker {
        cash = broker.cash -ℤ pos (paid position);
        positions = put ticker position broker.positions;
      })
  bought-IsBalanced ticker position e affordable =
      let more = total-put_new paid ticker position broker.positions e in
      let balance =
        parts_of_eq (broker.cash +ℤ pos (invested broker)) (start +ℤ net_total broker.settlements)
          b.balance in
      record {
        balance = omega (int_laws, balance, more);
        solvent = omega (int_laws, affordable-le broker.cash (paid position) affordable);
        one_each = IsDict-put ticker position broker.positions b.one_each;
      }

  fill_by-IsBalanced :
      (refusal : Option RejectReason) (ticker : String) (position : OpenPosition)
      → lookup ticker broker.positions ≡ none
      → (refusal ≡ none → ltb_ℤ broker.cash (pos (paid position)) ≡ false)
      → IsBalanced start (fill_by refusal ticker position broker).1
  fill_by-IsBalanced (some reason) ticker position e affordable = b
  fill_by-IsBalanced none ticker position e affordable =
      bought-IsBalanced ticker position e (affordable refl)

  fill_with-IsBalanced :
      (price : Option ℕ) (order : OrderRequest) (bar : MarketBar)
      → lookup order.market_ticker broker.positions ≡ none
      → IsBalanced start (fill_with price order bar broker).1
  fill_with-IsBalanced none order bar e = b
  fill_with-IsBalanced (some price) order bar e =
      fill_by-IsBalanced (fill_refusal order price bar broker) order.market_ticker
        (bought order price bar broker) e (λ passed. refused_unpaid order price bar broker passed)

  pub place_on-IsBalanced :
      (bar : Option MarketBar) (order : OrderRequest)
      → IsBalanced start (place_on bar order broker).1
  place_on-IsBalanced none order = b
  place_on-IsBalanced (some bar) order =
      if_both (λ (r : OrderStatus × BacktestBroker). IsBalanced start r.1)
        (is_some (lookup order.market_ticker broker.positions))
        (was_rejected position_already_open, broker)
        (if is_maker order.execution_style
          then (was_rejected maker_unfilled_no_validated_model, broker)
          else fill_with (fill_price broker.fill_mode bar order.side) order bar broker)
        (λ _. b)
        (λ free.
          if_both (λ (r : OrderStatus × BacktestBroker). IsBalanced start r.1)
            (is_maker order.execution_style)
            (was_rejected maker_unfilled_no_validated_model, broker)
            (fill_with (fill_price broker.fill_mode bar order.side) order bar broker) (λ _. b)
            (λ _.
              fill_with-IsBalanced (fill_price broker.fill_mode bar order.side) order bar
                (is_some-none (lookup order.market_ticker broker.positions) free)))
