-- ===== src/Backtest/PerpLedger.antt =====
-- The perpetual ledger's trades, metrics and promotion gate (src/kalshi_bot/backtest/perp_ledger.py). Sizes,
-- prices and payments are whole numbers of smallest units; leverages and distances are in
-- millionths.
pub mod Gate
mod Tests
use kalshi_trading_bot.Prelude.{
  ℕ, suc, ◌+◌, ◌*◌, Bool, true, false, not, ◌&&◌, Option, none, some, List, [], ◌∷◌, String, length,
  ltb, leb, if◌then◌else◌, is_empty,
}
use kalshi_trading_bot.Prelude.Int.{ℤ, pos, pos_part, neg_part, sub_ℕ, ◌+ℤ◌, ◌-ℤ◌, ltb_ℤ, leb_ℤ}

-- `payment` is negative where the account paid.
pub record FundingEvent : Type 0 where
  pub ts : ℕ
  pub funding_rate : ℤ
  pub position_notional : ℕ
  pub payment : ℤ

-- `size` is negative for a short.
pub record PerpTrade : Type 0 where
  pub symbol : String
  pub entry_ts : ℕ
  pub exit_ts : ℕ
  pub size : ℤ
  pub entry_mark : ℕ
  pub exit_mark : ℕ
  pub entry_fee : ℕ
  pub exit_fee : ℕ
  pub funding_events : List FundingEvent
  pub max_leverage_used : Option ℕ
  pub min_distance_to_liquidation : Option ℤ

-- The product of two integers.
unfoldable pub times : ℤ → ℤ → ℤ
times a b =
    sub_ℕ (pos_part a * pos_part b + neg_part a * neg_part b)
      (pos_part a * neg_part b + neg_part a * pos_part b)

unfoldable pub gross_pnl : PerpTrade → ℤ
gross_pnl trade = times trade.size (pos trade.exit_mark -ℤ pos trade.entry_mark)

abbrev pub payments : List FundingEvent → ℤ
payments [] = pos 0
payments (event ∷ events) = event.payment +ℤ payments events

unfoldable pub funding_pnl : PerpTrade → ℤ
funding_pnl trade = payments trade.funding_events

unfoldable pub fees : PerpTrade → ℕ
fees trade = trade.entry_fee + trade.exit_fee

unfoldable pub net_pnl : PerpTrade → ℤ
net_pnl trade = gross_pnl trade +ℤ funding_pnl trade -ℤ pos (fees trade)

abbrev pub sum_of : (PerpTrade → ℤ) → List PerpTrade → ℤ
sum_of f [] = pos 0
sum_of f (trade ∷ trades) = f trade +ℤ sum_of f trades

abbrev pub fee_total : List PerpTrade → ℕ
fee_total [] = 0
fee_total (trade ∷ trades) = fees trade + fee_total trades

-- The greater, or the lesser, of what there is.
abbrev pub greater : Option ℕ → Option ℕ → Option ℕ
greater none b = b
greater (some a) none = some a
greater (some a) (some b) = some (if leb a b then b else a)

abbrev pub lesser : Option ℤ → Option ℤ → Option ℤ
lesser none b = b
lesser (some a) none = some a
lesser (some a) (some b) = some (if leb_ℤ a b then a else b)

unfoldable pub greatest_leverage : List PerpTrade → Option ℕ
greatest_leverage [] = none
greatest_leverage (trade ∷ trades) = greater trade.max_leverage_used (greatest_leverage trades)

unfoldable pub least_distance : List PerpTrade → Option ℤ
least_distance [] = none
least_distance (trade ∷ trades) = lesser trade.min_distance_to_liquidation (least_distance trades)

unfoldable pub worst_trade : List PerpTrade → Option ℤ
worst_trade [] = none
worst_trade (trade ∷ trades) = lesser (some (net_pnl trade)) (worst_trade trades)

-- The distance is tracked, and is not above zero.
abbrev pub is_liquidated : Option ℤ → Bool
is_liquidated none = false
is_liquidated (some distance) = leb_ℤ distance (pos 0)

unfoldable pub liquidations : List PerpTrade → ℕ
liquidations [] = 0
liquidations (trade ∷ trades) =
    let rest = liquidations trades in
    if is_liquidated trade.min_distance_to_liquidation then suc rest else rest

-- The metrics but the two quotients, which no gate reads.
pub record PerpLedgerMetrics : Type 0 where
  pub n_trades : ℕ
  pub net_pnl_usd : ℤ
  pub gross_pnl_usd : ℤ
  pub funding_pnl_usd : ℤ
  pub fees_usd : ℕ
  pub worst_trade_pnl : Option ℤ
  pub max_leverage_used : Option ℕ
  pub min_distance_to_liquidation : Option ℤ
  pub n_liquidations : ℕ

unfoldable pub compute_perp_metrics : List PerpTrade → PerpLedgerMetrics
compute_perp_metrics trades = record {
  n_trades = length trades;
  net_pnl_usd = sum_of net_pnl trades;
  gross_pnl_usd = sum_of gross_pnl trades;
  funding_pnl_usd = sum_of funding_pnl trades;
  fees_usd = fee_total trades;
  worst_trade_pnl = worst_trade trades;
  max_leverage_used = greatest_leverage trades;
  min_distance_to_liquidation = least_distance trades;
  n_liquidations = liquidations trades;
}

pub record PerpPromotionPolicy : Type 0 where
  pub min_trades : ℕ
  pub min_net_expectancy : ℤ
  pub min_distance : ℤ
  pub max_leverage : ℕ
  pub forbid_any_liquidation : Bool

-- `PerpPromotionPolicy()`
abbrev pub default_perp_policy : PerpPromotionPolicy
default_perp_policy = record {
  min_trades = 30;
  min_net_expectancy = pos 0;
  min_distance = pos 150000;
  max_leverage = 2000000;
  forbid_any_liquidation = true;
}

pub data PerpReason : Type 0 where
  few_perp_trades : ℕ → ℕ → PerpReason
  low_net_pnl : PerpReason
  liquidated : ℕ → PerpReason
  near_liquidation : Option ℤ → ℤ → PerpReason
  high_leverage : Option ℕ → ℕ → PerpReason

pub record PerpPromotionDecision : Type 0 where
  pub passed : Bool
  pub reasons : List PerpReason

-- `if test: reasons.append(reason)`, in front of the reasons that follow.
unfoldable pub perp_reason_if : Bool → PerpReason → List PerpReason → List PerpReason
perp_reason_if test reason rest = if test then reason ∷ rest else rest

abbrev pub is_below : Option ℤ → ℤ → Bool
is_below none floor = false
is_below (some distance) floor = ltb_ℤ distance floor

abbrev pub is_above : Option ℕ → ℕ → Bool
is_above none cap_value = false
is_above (some leverage) cap_value = ltb cap_value leverage

-- `max(n, 1)`
abbrev pub at_least_one : ℕ → ℕ
at_least_one n = if leb n 1 then 1 else n

unfoldable pub perp_reasons : PerpLedgerMetrics → PerpPromotionPolicy → List PerpReason
perp_reasons metrics policy =
    perp_reason_if (ltb metrics.n_trades policy.min_trades)
      (few_perp_trades metrics.n_trades policy.min_trades)
      (perp_reason_if
        (leb_ℤ metrics.net_pnl_usd
          (times policy.min_net_expectancy (pos (at_least_one metrics.n_trades))))
        low_net_pnl
        (perp_reason_if (policy.forbid_any_liquidation && ltb 0 metrics.n_liquidations)
          (liquidated metrics.n_liquidations)
          (perp_reason_if (is_below metrics.min_distance_to_liquidation policy.min_distance)
            (near_liquidation metrics.min_distance_to_liquidation policy.min_distance)
            (perp_reason_if (is_above metrics.max_leverage_used policy.max_leverage)
              (high_leverage metrics.max_leverage_used policy.max_leverage) []))))

unfoldable pub evaluate_perp_promotion :
    PerpLedgerMetrics → PerpPromotionPolicy → PerpPromotionDecision
evaluate_perp_promotion metrics policy =
    let reasons = perp_reasons metrics policy in
    record { passed = is_empty reasons; reasons = reasons }
