-- ===== src/Prelude/Ledgers.antt =====
-- Append-only ledgers, newest row first: one extends another when it only has more rows on top.
use mathlib.Core.Path.{◌≡◌, refl, ap, sym, ◌∙◌}
use mathlib.Core.Logic.{◌⊎◌, inl, inr}
use mathlib.Core.List.{List, [], ◌∷◌, ◌++◌, append_assoc}
use kalshi_trading_bot.Prelude.Lists.{All}

module _ {ℓ} {A : Type ℓ} where
  abbrev pub Extends : List A → List A → Type ℓ
  Extends rows rows' = (added : List A) × (rows' ≡ added ++ rows)

  pub Extends-refl : (rows : List A) → Extends rows rows
  Extends-refl rows = ([], refl)

  pub Extends-add : (row : A) (rows : List A) → Extends rows (row ∷ rows)
  Extends-add row rows = (row ∷ [], refl)

  pub Extends-trans : (r s t : List A) → Extends r s → Extends s t → Extends r t
  Extends-trans r s t (a, e) (b, f) = (b ++ a, f ∙ ap (λ x. b ++ x) e ∙ sym (append_assoc b a r))

  -- What one call does to a ledger: nothing, or one more row, of which `P` holds.
  abbrev pub Appends {κ} : (A → Type κ) → List A → List A → Type (ℓ ⊔ κ)
  Appends P rows rows' = (rows' ≡ rows) ⊎ ((row : A) × (rows' ≡ row ∷ rows) × P row)

  pub Appends-Extends {κ} :
      (P : A → Type κ) (rows rows' : List A) → Appends P rows rows' → Extends rows rows'
  Appends-Extends P rows rows' (inl same) = ([], same)
  Appends-Extends P rows rows' (inr (row, more, p)) = (row ∷ [], more)

  pub Appends-All {κ} :
      (P : A → Type κ) (rows rows' : List A) → Appends P rows rows' → All P rows → All P rows'
  Appends-All P rows rows' (inl same) h = rw same h
  Appends-All P rows rows' (inr (row, more, p)) h = rw more (p, h)
