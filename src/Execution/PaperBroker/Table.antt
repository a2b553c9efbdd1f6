-- ===== src/Execution/PaperBroker/Table.antt =====
-- The table of trades, and what a restart reads from it.
use text.Mathlib.Text.{◌==◌ as str_eq}
use text.Mathlib.TextEquality.{eq_iff}
use kalshi_trading_bot.Prelude.{
  ℕ, ◌+◌, ◌*◌, get_or, ◌<◌, ◌≡◌, refl, Bool, true, false, ◌&&◌, none, some, List, [], ◌∷◌, String,
  length, ◌==◌, arith,
}
use kalshi_trading_bot.Prelude.Dict.{lookup, remove, lookup-put, remove-put_other}
use kalshi_trading_bot.Prelude.Int.{ℤ, pos, ◌+ℤ◌, ◌-ℤ◌, int_laws}
use kalshi_trading_bot.Execution.PaperBroker.{
  SimulatedTrade, is_paper, is_open, restored_positions, restore_position, restore_cash, write_row,
  settled_row, won_payout, row_cost,
}
use kalshi_trading_bot.Execution.Broker.{is_result}

-- The row is an open paper trade.
abbrev pub is_held : SimulatedTrade → Bool
is_held row = is_paper row.mode && is_open row.status

-- No market has two open paper trades.
abbrev pub IsSingle : List SimulatedTrade → Type 0
IsSingle [] = Unit
IsSingle (row ∷ older) =
    (is_held row ≡ true → lookup row.market_ticker (restored_positions older) ≡ none)
    × IsSingle older

pub length-write_row :
    (id : ℕ) (changed : SimulatedTrade) (rows : List SimulatedTrade)
    → length (write_row id changed rows) ≡ length rows
unfolding write_row
length-write_row id changed [] = refl
length-write_row id changed (row ∷ older) = ground (arith, length-write_row id changed older)

restored-bound :
    (ticker : String) (id : ℕ) (rows : List SimulatedTrade)
    → lookup ticker (restored_positions rows) ≡ some id
    → id < length rows
unfolding restored_positions lookup
restored-bound ticker id [] h = cc
restored-bound ticker id (row ∷ older) h = ground (
  arith,
  lookup-put row.market_ticker ticker (length older) (restored_positions older),
  restored-bound ticker id older,
)

-- A position in the newest row is that row's.
pub newest_held :
    (ticker : String) (row : SimulatedTrade) (older : List SimulatedTrade)
    → lookup ticker (restored_positions (row ∷ older)) ≡ some (length older)
    → (is_held row ≡ true) × (row.market_ticker ≡ ticker)
unfolding restored_positions
newest_held ticker row older h = ground (
  arith,
  eq_iff row.market_ticker ticker,
  lookup-put row.market_ticker ticker (length older) (restored_positions older),
  restored-bound ticker (length older) older,
)

-- Any other position is in the older rows, and not of the newest row's market.
pub older_held :
    (ticker : String) (id : ℕ) (row : SimulatedTrade) (older : List SimulatedTrade)
    → lookup ticker (restored_positions (row ∷ older)) ≡ some id
    → (length older == id) ≡ false
    → (lookup ticker (restored_positions older) ≡ some id)
      × (is_held row ≡ true → str_eq ticker row.market_ticker ≡ false)
unfolding restored_positions
older_held ticker id row older h other = ground (
  arith,
  eq_iff row.market_ticker ticker,
  eq_iff ticker row.market_ticker,
  lookup-put row.market_ticker ticker (length older) (restored_positions older),
)

pub settled-is_held :
    (row : SimulatedTrade) (result : String) (settled_ts : ℕ)
    → is_held (settled_row row result settled_ts) ≡ false
unfolding settled_row
settled-is_held row result settled_ts = ground arith

booked_cash :
    (cash : ℤ) (payout stake fee : ℕ)
    → cash +ℤ (pos payout -ℤ pos stake -ℤ pos fee) ≡ cash -ℤ pos (stake + fee) +ℤ pos payout
booked_cash cash payout stake fee = omega int_laws

pub settled-restore_cash :
    (row : SimulatedTrade) (result : String) (settled_ts : ℕ) (cash : ℤ)
    → is_held row ≡ true
    → restore_cash (settled_row row result settled_ts) cash
      ≡ restore_cash row cash +ℤ pos (won_payout (is_result row.side result) row.quantity)
unfolding settled_row
settled-restore_cash row result settled_ts cash held = ground (
  arith,
  booked_cash cash (won_payout (is_result row.side result) row.quantity)
      (row.entry_price_cents * row.quantity) (get_or row.entry_fee_paid 0),
)

pub restore_cash_shift :
    (row : SimulatedTrade) (cash : ℤ) (n : ℕ)
    → restore_cash row (cash +ℤ pos n) ≡ restore_cash row cash +ℤ pos n
restore_cash_shift row cash n =
    let cost = pos (row_cost row) in
    let net = get_or row.net_pnl (pos 0) in
    let taken : cash +ℤ pos n -ℤ cost ≡ cash -ℤ cost +ℤ pos n = omega int_laws in
    let added : cash +ℤ pos n +ℤ net ≡ cash +ℤ net +ℤ pos n = omega int_laws in
    ground (arith, taken, added)

pub restore_position-remove :
    (row : SimulatedTrade) (id : ℕ) (ticker : String) (positions : List (String × ℕ))
    → (is_held row ≡ true → str_eq ticker row.market_ticker ≡ false)
    → restore_position row id (remove ticker positions)
      ≡ remove ticker (restore_position row id positions)
restore_position-remove row id ticker positions differs =
    ground (arith, differs, remove-put_other ticker row.market_ticker id positions)
