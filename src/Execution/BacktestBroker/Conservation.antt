-- ===== src/Execution/BacktestBroker/Conservation.antt =====
-- Sequences of calls of `BacktestBroker` (src/kalshi_bot/execution/backtest_broker.py).
use kalshi_trading_bot.Prelude.{ℕ, ◌≡◌, refl, List, [], ◌∷◌, String, arith, ok}
use kalshi_trading_bot.Prelude.Dict.{lookup}
use kalshi_trading_bot.Prelude.Int.{ℤ, pos, ◌≤ℤ◌, +ℤ_parts}
use kalshi_trading_bot.Execution.Broker.{OrderRequest}
use kalshi_trading_bot.Execution.BacktestBroker.{
  BacktestBroker, MarketBar, FillMode, new_broker, set_current_bar, void_fill, close_position_early,
  settle_market, place_order,
}
use kalshi_trading_bot.Execution.BacktestBroker.Accounting.{
  IsBalanced, void_at-IsBalanced, settle_at-IsBalanced, close_at-IsBalanced, place_on-IsBalanced,
}

-- The calls that touch a broker.
pub data Call : Type 0 where
  feeds : MarketBar → Call
  orders : OrderRequest → Call
  voids : String → Call
  closes : String → ℕ → ℕ → Call
  settles : String → String → ℕ → Call

unfoldable pub after : Call → BacktestBroker → BacktestBroker
after (feeds bar) broker = set_current_bar bar broker
after (orders order) broker = (place_order order broker).1
after (voids ticker) broker = void_fill ticker broker
after (closes ticker price ts) broker = (close_position_early ticker price ts broker).1
after (settles ticker result ts) broker = settle_market ticker result ts broker

unfoldable pub after_all : List Call → BacktestBroker → BacktestBroker
after_all [] broker = broker
after_all (call ∷ calls) broker = after_all calls (after call broker)

after-IsBalanced :
    (start : ℤ) (call : Call) (broker : BacktestBroker)
    → IsBalanced start broker
    → IsBalanced start (after call broker)
unfolding after set_current_bar place_order void_fill close_position_early settle_market
after-IsBalanced start (feeds bar) broker b = record {
  balance = b.balance;
  solvent = b.solvent;
  one_each = b.one_each;
}
after-IsBalanced start (orders order) broker b =
    let placed =
      place_on-IsBalanced start broker b (lookup order.market_ticker broker.current_bars) order in
    record { balance = placed.balance; solvent = placed.solvent; one_each = placed.one_each }
after-IsBalanced start (voids ticker) broker b =
    void_at-IsBalanced start broker b (lookup ticker broker.positions) ticker refl
after-IsBalanced start (closes ticker price ts) broker b =
    close_at-IsBalanced start broker b (lookup ticker broker.positions) ticker price ts refl
after-IsBalanced start (settles ticker result ts) broker b =
    settle_at-IsBalanced start broker b (lookup ticker broker.positions) ticker result ts refl

after_all-IsBalanced :
    (start : ℤ) (calls : List Call) (broker : BacktestBroker)
    → IsBalanced start broker
    → IsBalanced start (after_all calls broker)
unfolding after_all
after_all-IsBalanced start [] broker b = b
after_all-IsBalanced start (call ∷ calls) broker b =
    after_all-IsBalanced start calls (after call broker) (after-IsBalanced start call broker b)

new_broker-IsBalanced :
    (start : ℤ) (mode : FillMode) (liquidity_cap : ℕ) (broker : BacktestBroker)
    → pos 0 ≤ℤ start
    → new_broker start mode liquidity_cap ≡ ok broker
    → IsBalanced start broker
unfolding new_broker
new_broker-IsBalanced start mode liquidity_cap broker funded made =
    ground (arith, +ℤ_parts start (pos 0))

-- Over any sequence of bars, orders, voided fills, early exits and settlements, a new replay broker
-- conserves money: its cash and the cost of what it holds are the starting cash and the net
-- results of all its settlements. The cash never falls below zero, if it does not start there, and
-- no market is held twice.
pub conserves_money :
    (start : ℤ) (mode : FillMode) (liquidity_cap : ℕ) (calls : List Call) {broker : BacktestBroker}
    → pos 0 ≤ℤ start
    → new_broker start mode liquidity_cap ≡ ok broker
    → IsBalanced start (after_all calls broker)
conserves_money start mode liquidity_cap calls {broker} funded made =
    after_all-IsBalanced start calls broker
      (new_broker-IsBalanced start mode liquidity_cap broker funded made)
