-- ===== src/Execution/PaperBroker/Settled.antt =====
-- What a restart reads from the table after the settlement of a position.
use text.Mathlib.Text.{◌==◌ as str_eq}
use kalshi_trading_bot.Prelude.{
  ℕ, ◌≡◌, sym, true, false, some, List, [], ◌∷◌, String, length, ◌==◌, arith, inl, inr, Bool-cases,
}
use kalshi_trading_bot.Prelude.Dict.{lookup, remove, lookup-remove, remove-put_same}
use kalshi_trading_bot.Prelude.Int.{ℤ, pos, ◌+ℤ◌}
use kalshi_trading_bot.Execution.PaperBroker.{
  SimulatedTrade, restored_positions, restored_cash, row_at, write_row, settled_row, won_payout,
}
use kalshi_trading_bot.Execution.Broker.{is_result}
use kalshi_trading_bot.Execution.PaperBroker.Table.{
  is_held, IsSingle, length-write_row, newest_held, older_held, settled-is_held,
  settled-restore_cash, restore_cash_shift, restore_position-remove,
}

-- A settlement of the position of a market, as a restart sees it.
module _ (ticker result : String) (settled_ts id : ℕ) (row : SimulatedTrade) where
  abbrev settled_table : List SimulatedTrade → List SimulatedTrade
  settled_table rows = write_row id (settled_row row result settled_ts) rows

  abbrev IsPosition : List SimulatedTrade → Type 0
  IsPosition rows =
      (lookup ticker (restored_positions rows) ≡ some id) × (row_at id rows ≡ some row)

  newest_entry :
      (newest : SimulatedTrade) (older : List SimulatedTrade)
      → IsPosition (newest ∷ older)
      → (length older == id) ≡ true
      → (newest ≡ row) × (is_held newest ≡ true) × (newest.market_ticker ≡ ticker)
  unfolding row_at
  newest_entry newest older (held, at) here = ground (arith, newest_held ticker newest older)

  older_entry :
      (newest : SimulatedTrade) (older : List SimulatedTrade)
      → IsPosition (newest ∷ older)
      → (length older == id) ≡ false
      → IsPosition older × (is_held newest ≡ true → str_eq ticker newest.market_ticker ≡ false)
  unfolding row_at
  older_entry newest older (held, at) below =
      let (h, differs) = older_held ticker id newest older held below in
      ((h, ground arith), differs)

  table_here :
      (newest : SimulatedTrade) (older : List SimulatedTrade)
      → (length older == id) ≡ true
      → settled_table (newest ∷ older) ≡ settled_row row result settled_ts ∷ older
  unfolding write_row
  table_here newest older here = ground arith

  table_below :
      (newest : SimulatedTrade) (older : List SimulatedTrade)
      → (length older == id) ≡ false
      → settled_table (newest ∷ older) ≡ newest ∷ settled_table older
  unfolding write_row
  table_below newest older below = ground arith

  no_row : {A : Type 0} → IsPosition [] → A
  unfolding row_at
  no_row (held, at) = cc

  pub settled-restored_cash :
      (start : ℤ) (rows : List SimulatedTrade)
      → IsPosition rows
      → restored_cash start (settled_table rows)
        ≡ restored_cash start rows +ℤ pos (won_payout (is_result row.side result) row.quantity)
  unfolding restored_cash
  settled-restored_cash start [] p = no_row p
  settled-restored_cash start (newest ∷ older) p = elim (Bool-cases (length older == id)) [
    | inl here ↦
        let (same, held, _) = newest_entry newest older p here in
        rw (table_here newest older here, same)
          (settled-restore_cash row result settled_ts (restored_cash start older) (rw⁻¹ same held))
    | inr below ↦
        let (q, _) = older_entry newest older p below in
        rw (table_below newest older below, settled-restored_cash start older q)
          (restore_cash_shift newest (restored_cash start older)
            (won_payout (is_result row.side result) row.quantity))
  ]

  pub settled-restored_positions :
      (rows : List SimulatedTrade)
      → IsPosition rows
      → IsSingle rows
      → restored_positions (settled_table rows) ≡ remove ticker (restored_positions rows)
  unfolding restored_positions
  settled-restored_positions [] p single = no_row p
  settled-restored_positions (newest ∷ older) p (alone, single) =
      elim (Bool-cases (length older == id)) [
        | inl here ↦
            let (same, held, market) = newest_entry newest older p here in
            let shut = settled-is_held row result settled_ts in
            rw (table_here newest older here, shut, held, market)
              (sym (
                remove-put_same ticker (length older) (restored_positions older)
                  (rw⁻¹ market (alone held))))
        | inr below ↦
            let (q, differs) = older_entry newest older p below in
            rw
              (
                table_below newest older below,
                settled-restored_positions older q single,
                length-write_row id (settled_row row result settled_ts) older,
              )
              (restore_position-remove newest (length older) ticker (restored_positions older)
                differs)
      ]

  pub settled-IsSingle :
      (rows : List SimulatedTrade) → IsPosition rows → IsSingle rows → IsSingle (settled_table rows)
  settled-IsSingle [] p single = no_row p
  settled-IsSingle (newest ∷ older) p (alone, single) = elim (Bool-cases (length older == id)) [
    | inl here ↦
        rw (table_here newest older here)
          ((λ held. let shut = settled-is_held row result settled_ts in cc), single)
    | inr below ↦
        let (q, differs) = older_entry newest older p below in
        rw (table_below newest older below) (
          (λ held. rw (settled-restored_positions older q single) (
              ground (
                arith,
                lookup-remove ticker newest.market_ticker (restored_positions older),
                alone,
              ))),
          settled-IsSingle older q single,
        )
  ]
