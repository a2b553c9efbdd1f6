-- ===== src/Execution/PaperBroker/Restart.antt =====
-- A paper broker that is restarted over its own table.
use kalshi_trading_bot.Prelude.{
  ℕ, ◌≡◌, refl, sym, true, Option, none, some, List, [], ◌∷◌, String, arith, if_both, is_some,
  is_some-none, if◌then◌else◌,
}
use kalshi_trading_bot.Prelude.Dict.{lookup}
use kalshi_trading_bot.Prelude.Int.{ℤ}
use kalshi_trading_bot.Execution.Broker.{
  OrderRequest, OrderStatus, RejectReason, MarketSnapshot, was_rejected, position_already_open,
  maker_unfilled_no_validated_model, is_maker,
}
use kalshi_trading_bot.Execution.PaperBroker.{
  PaperBroker, SimulatedTrade, new_paper_broker, restored_positions, restored_cash,
  set_current_quote, settle_market, settle_id, settle_row, row_at, place_order, place_quoted,
  open_at, open_by, opened_row, paper_refusal, quoted_price, filled_at,
}
use kalshi_trading_bot.Execution.PaperBroker.Table.{is_held, IsSingle}
use kalshi_trading_bot.Execution.PaperBroker.Settled.{
  settled-restored_cash, settled-restored_positions, settled-IsSingle,
}

-- What the broker holds is what a restart would read, and no market has two open rows.
pub record IsRestorable (starting_cash : ℤ) (broker : PaperBroker) : Type 0 where
  pub same_cash : broker.cash ≡ restored_cash starting_cash broker.rows
  pub same_positions : broker.positions ≡ restored_positions broker.rows
  pub single : IsSingle broker.rows

module _ (start : ℤ) (broker : PaperBroker) (b : IsRestorable start broker) where
  settle_row-IsRestorable :
      (found : Option SimulatedTrade) (id : ℕ) (ticker result : String) (settled_ts : ℕ)
      → lookup ticker broker.positions ≡ some id
      → row_at id broker.rows ≡ found
      → IsRestorable start (settle_row found id ticker result settled_ts broker).1
  settle_row-IsRestorable none id ticker result settled_ts held at = b
  settle_row-IsRestorable (some row) id ticker result settled_ts held at =
      let p : (lookup ticker (restored_positions broker.rows) ≡ some id)
          × (row_at id broker.rows ≡ some row) =
        (rw⁻¹ b.same_positions held, at) in
      record {
        same_cash =
            rw b.same_cash
              (sym (settled-restored_cash ticker result settled_ts id row start broker.rows p));
        same_positions = rw b.same_positions (
            sym
              (settled-restored_positions ticker result settled_ts id row broker.rows p b.single));
        single = settled-IsSingle ticker result settled_ts id row broker.rows p b.single;
      }

  settle_id-IsRestorable :
      (found : Option ℕ) (ticker result : String) (settled_ts : ℕ)
      → lookup ticker broker.positions ≡ found
      → IsRestorable start (settle_id found ticker result settled_ts broker).1
  settle_id-IsRestorable none ticker result settled_ts held = b
  settle_id-IsRestorable (some id) ticker result settled_ts held =
      settle_row-IsRestorable (row_at id broker.rows) id ticker result settled_ts held refl

  open_by-IsRestorable :
      (refusal : Option RejectReason) (row : SimulatedTrade)
      → is_held row ≡ true
      → lookup row.market_ticker broker.positions ≡ none
      → IsRestorable start (open_by refusal row broker).1
  unfolding restored_cash restored_positions
  open_by-IsRestorable (some reason) row held free = b
  open_by-IsRestorable none row held free = record {
    same_cash = ground (arith, b.same_cash);
    same_positions = rw (held, b.same_positions) refl;
    single = ((λ _. rw⁻¹ b.same_positions free), b.single);
  }

  open_at-IsRestorable :
      (limit price : Option ℕ) (order : OrderRequest) (at : ℕ)
      → lookup order.market_ticker broker.positions ≡ none
      → IsRestorable start (open_at limit price order at broker).1
  open_at-IsRestorable none price order at free = b
  open_at-IsRestorable (some limit) none order at free = b
  open_at-IsRestorable (some limit) (some price) order at free =
      let row = opened_row order price at in
      open_by-IsRestorable (paper_refusal limit price row broker) row refl free

  abbrev IsRestorableResult : OrderStatus × PaperBroker → Type 0
  IsRestorableResult (status, next) = IsRestorable start next

  place_quoted-IsRestorable :
      (snapshot : Option MarketSnapshot) (order : OrderRequest) (now : ℕ)
      → IsRestorableResult (place_quoted snapshot order now broker)
  place_quoted-IsRestorable none order now = b
  place_quoted-IsRestorable (some snapshot) order now =
      let found = lookup order.market_ticker broker.positions in
      let opened =
        open_at order.limit_price_cents (quoted_price order.side snapshot) order
          (filled_at snapshot.ts now) broker in
      if_both IsRestorableResult (is_some found) (was_rejected position_already_open, broker)
        (if is_maker order.execution_style
          then (was_rejected maker_unfilled_no_validated_model, broker)
          else opened)
        (λ _. b)
        (λ free.
          if_both IsRestorableResult (is_maker order.execution_style)
            (was_rejected maker_unfilled_no_validated_model, broker) opened (λ _. b)
            (λ _.
              open_at-IsRestorable order.limit_price_cents (quoted_price order.side snapshot) order
                (filled_at snapshot.ts now) (is_some-none found free)))

-- The calls that touch a paper broker.
pub data Call : Type 0 where
  quotes_market : MarketSnapshot → Call
  orders : OrderRequest → ℕ → Call
  settles : String → String → ℕ → Call

unfoldable pub after : Call → PaperBroker → PaperBroker
after (quotes_market snapshot) broker = set_current_quote snapshot broker
after (orders order now) broker = (place_order order now broker).1
after (settles ticker result ts) broker = (settle_market ticker result ts broker).1

unfoldable pub after_all : List Call → PaperBroker → PaperBroker
after_all [] broker = broker
after_all (call ∷ calls) broker = after_all calls (after call broker)

after-IsRestorable :
    (start : ℤ) (call : Call) (broker : PaperBroker)
    → IsRestorable start broker
    → IsRestorable start (after call broker)
unfolding after set_current_quote place_order settle_market
after-IsRestorable start (quotes_market snapshot) broker b = record {
  same_cash = b.same_cash;
  same_positions = b.same_positions;
  single = b.single;
}
after-IsRestorable start (orders order now) broker b =
    let placed =
      place_quoted-IsRestorable start broker b (lookup order.market_ticker broker.quotes) order
        now in
    record {
      same_cash = placed.same_cash;
      same_positions = placed.same_positions;
      single = placed.single;
    }
after-IsRestorable start (settles ticker result ts) broker b =
    settle_id-IsRestorable start broker b (lookup ticker broker.positions) ticker result ts refl

after_all-IsRestorable :
    (start : ℤ) (calls : List Call) (broker : PaperBroker)
    → IsRestorable start broker
    → IsRestorable start (after_all calls broker)
unfolding after_all
after_all-IsRestorable start [] broker b = b
after_all-IsRestorable start (call ∷ calls) broker b =
    after_all-IsRestorable start calls (after call broker) (after-IsRestorable start call broker b)

new_paper_broker-IsRestorable :
    (start : ℤ) (rows : List SimulatedTrade)
    → IsSingle rows
    → IsRestorable start (new_paper_broker start rows)
unfolding new_paper_broker
new_paper_broker-IsRestorable start rows single = record {
  same_cash = refl;
  same_positions = refl;
  single = single;
}

restored_same :
    (start : ℤ) (broker : PaperBroker)
    → IsRestorable start broker
    → new_paper_broker start broker.rows ≡ (record broker { quotes = []; order_ids = 1 })
unfolding new_paper_broker
restored_same start broker b = rw (b.same_cash, b.same_positions) refl

-- A paper broker that starts over a table with at most one open paper trade per market, and then
-- sees any quotes, orders and settlements, resumes where it left off: a new broker over the
-- resulting table, with the same starting cash, has the same cash, the same positions, in the same order, and
-- the same rows.
-- It has no quotes yet, and its order ids start again at 1.
pub restart_resumes :
    (start : ℤ) (rows : List SimulatedTrade) (calls : List Call)
    → IsSingle rows
    → new_paper_broker start (after_all calls (new_paper_broker start rows)).rows
      ≡ (record (after_all calls (new_paper_broker start rows)) { quotes = []; order_ids = 1 })
restart_resumes start rows calls single =
    restored_same start (after_all calls (new_paper_broker start rows)) (
      after_all-IsRestorable start calls (new_paper_broker start rows)
        (new_paper_broker-IsRestorable start rows single))
