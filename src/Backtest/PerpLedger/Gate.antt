-- ===== src/Backtest/PerpLedger/Gate.antt =====
-- What the gate of src/kalshi_bot/backtest/perp_ledger.py asks of the trades behind the metrics.
use kalshi_trading_bot.Prelude.{
  ℕ, suc, ◌+◌, ◌≤◌, ◌≡◌, ◌↔◌, refl, Bool, true, false, ◌&&◌, Option, List, [], ◌∷◌, length, All,
  ltb, arith, if◌then◌else◌,
}
use kalshi_trading_bot.Prelude.Int.{ℤ, pos, ◌+ℤ◌, ◌-ℤ◌, ◌<ℤ◌, int_laws, parts_of_eq}
use kalshi_trading_bot.Backtest.PerpLedger.{
  PerpTrade, PerpPromotionPolicy, gross_pnl, funding_pnl, fees, net_pnl, sum_of, fee_total,
  greatest_leverage, least_distance, is_liquidated, liquidations, compute_perp_metrics,
  evaluate_perp_promotion, perp_reasons, perp_reason_if, is_below, is_above, times, greater, lesser,
  at_least_one,
}

-- Every trade with a tracked distance keeps the floor, every one with a tracked leverage the cap.
abbrev pub IsSafe : PerpPromotionPolicy → PerpTrade → Type 0
IsSafe policy trade =
    (is_below trade.min_distance_to_liquidation policy.min_distance ≡ false)
    × (is_above trade.max_leverage_used policy.max_leverage ≡ false)
    × (policy.forbid_any_liquidation ≡ true
        → is_liquidated trade.min_distance_to_liquidation ≡ false)

lesser-is_below :
    (a b : Option ℤ) (floor : ℤ)
    → (is_below (lesser a b) floor ≡ false)
      ↔ ((is_below a floor ≡ false) × (is_below b floor ≡ false))
lesser-is_below a b floor = (ground arith, ground arith)

greater-is_above :
    (a b : Option ℕ) (most : ℕ)
    → (is_above (greater a b) most ≡ false)
      ↔ ((is_above a most ≡ false) × (is_above b most ≡ false))
greater-is_above a b most = (ground arith, ground arith)

liquidated-count :
    (forbids here : Bool) (n : ℕ)
    → ((forbids && ltb 0 (if here then suc n else n)) ≡ false)
      ↔ ((forbids ≡ true → here ≡ false) × ((forbids && ltb 0 n) ≡ false))
liquidated-count true true n = (ground arith, ground arith)
liquidated-count true false n = (ground arith, ground arith)
liquidated-count false here n = (ground arith, ground arith)

module _ (policy : PerpPromotionPolicy) where
  every_trade_kept :
      (trades : List PerpTrade)
      → All (IsSafe policy) trades ↔ (
          (is_below (least_distance trades) policy.min_distance ≡ false)
          × (is_above (greatest_leverage trades) policy.max_leverage ≡ false)
          × ((policy.forbid_any_liquidation && ltb 0 (liquidations trades)) ≡ false))
  unfolding least_distance greatest_leverage liquidations
  every_trade_kept [] = ((λ _. (refl, refl, ground arith)), (λ _. tt))
  every_trade_kept (trade ∷ trades) =
      let rest = every_trade_kept trades in
      let distance =
        lesser-is_below trade.min_distance_to_liquidation (least_distance trades)
          policy.min_distance in
      let leverage =
        greater-is_above trade.max_leverage_used (greatest_leverage trades) policy.max_leverage in
      let count =
        liquidated-count policy.forbid_any_liquidation
          (is_liquidated trade.min_distance_to_liquidation) (liquidations trades) in
      (
        (λ ((d, l, c), safe).
            let (ds, ls, cs) = rest.0 safe in
            (distance.1 (d, ds), leverage.1 (l, ls), count.1 (c, cs))),
        (λ (d, l, c).
            let (d, ds) = distance.0 d in
            let (l, ls) = leverage.0 l in
            let (c, cs) = count.0 c in ((d, l, c), rest.1 (ds, ls, cs))),
      )

net-split :
    (net gross funding : ℤ) (nets grosses fundings : ℤ) (fee fees : ℕ)
    → net ≡ gross +ℤ funding -ℤ pos fee
    → nets ≡ grosses +ℤ fundings -ℤ pos fees
    → net +ℤ nets ≡ gross +ℤ grosses +ℤ (funding +ℤ fundings) -ℤ pos (fee + fees)
net-split net gross funding nets grosses fundings fee fees here rest =
    let h = parts_of_eq net (gross +ℤ funding -ℤ pos fee) here in
    let r = parts_of_eq nets (grosses +ℤ fundings -ℤ pos fees) rest in omega (int_laws, h, r)

-- The net result is the price result and the funding, less the fees.
net_total :
    (trades : List PerpTrade)
    → sum_of net_pnl trades
      ≡ sum_of gross_pnl trades +ℤ sum_of funding_pnl trades -ℤ pos (fee_total trades)
unfolding net_pnl
net_total [] = omega int_laws
net_total (trade ∷ trades) =
    net-split (net_pnl trade) (gross_pnl trade) (funding_pnl trade) (sum_of net_pnl trades)
      (sum_of gross_pnl trades) (sum_of funding_pnl trades) (fees trade) (fee_total trades) refl
      (net_total trades)

-- What the trades must show.
pub record IsPromotable (policy : PerpPromotionPolicy) (trades : List PerpTrade) : Type 0 where
  pub enough : policy.min_trades ≤ length trades
  pub profitable :
      times policy.min_net_expectancy (pos (at_least_one (length trades)))
      <ℤ sum_of gross_pnl trades +ℤ sum_of funding_pnl trades -ℤ pos (fee_total trades)
  pub safe : All (IsSafe policy) trades

gate_parts :
    (policy : PerpPromotionPolicy) (trades : List PerpTrade)
    → ((evaluate_perp_promotion (compute_perp_metrics trades) policy).passed ≡ true) ↔ (
        (policy.min_trades ≤ length trades)
        × (times policy.min_net_expectancy (pos (at_least_one (length trades)))
            <ℤ sum_of net_pnl trades)
        × ((is_below (least_distance trades) policy.min_distance ≡ false)
            × (is_above (greatest_leverage trades) policy.max_leverage ≡ false)
            × ((policy.forbid_any_liquidation && ltb 0 (liquidations trades)) ≡ false)))
unfolding evaluate_perp_promotion compute_perp_metrics perp_reasons perp_reason_if
gate_parts policy trades = (ground arith, ground arith)

-- The perpetual gate passes the metrics of a list of trades exactly when there are enough of them, their
-- price results and funding less their fees come to more than the expectancy for each, and every
-- trade, as far as it was tracked, kept its distance from liquidation and its leverage within the policy,
-- and, where the policy forbids it, was not liquidated.
pub perp_promotion_iff :
    (policy : PerpPromotionPolicy) (trades : List PerpTrade)
    → ((evaluate_perp_promotion (compute_perp_metrics trades) policy).passed ≡ true)
      ↔ IsPromotable policy trades
perp_promotion_iff policy trades =
    let parts = gate_parts policy trades in
    let safe = every_trade_kept policy trades in
    let net = net_total trades in
    (
      (λ h.
          let (enough, profit, kept) = parts.0 h in
          record { enough = enough; profitable = rw⁻¹ net profit; safe = safe.1 kept }),
      (λ p. parts.1 (p.enough, rw net p.profitable, safe.0 p.safe)),
    )
