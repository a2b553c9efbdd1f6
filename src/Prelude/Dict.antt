-- ===== src/Prelude/Dict.antt =====
-- Python dictionaries with text keys, in insertion order.
use text.Mathlib.Text.{◌==◌ as str_eq}
use text.Mathlib.TextEquality.{eq_iff}
use mathlib.Core.Path.{◌≡◌, refl, ◌∙◌}
use mathlib.Core.Logic.{inl, inr}
use mathlib.Core.Bool.{true, false}
use mathlib.Core.Option.{Option, none, some}
use mathlib.Core.List.{List, [], ◌∷◌}
use Prim.Native.String.{String}
use Prim.Native.Nat.{ℕ, ◌+◌}
use native.Mathlib.Omega.{arith}
use kalshi_trading_bot.Prelude.Tests.{if◌then◌else◌, Bool-cases}

pub str_eq_self : (s : String) → str_eq s s ≡ true
str_eq_self s = (eq_iff s s).1 refl

not_same : (s t : String) → str_eq t s ≡ false → str_eq s t ≡ false
not_same s t h = ground (arith, eq_iff s t, eq_iff t s)

module _ {V : Type 0} where
  -- `d.get(key)`
  unfoldable pub lookup : String → List (String × V) → Option V
  lookup key [] = none
  lookup key ((other, v) ∷ d) = if str_eq other key then some v else lookup key d

  -- `d[key] = v`
  unfoldable pub put : String → V → List (String × V) → List (String × V)
  put key v [] = (key, v) ∷ []
  put key v ((other, w) ∷ d) = if str_eq other key then (other, v) ∷ d else (other, w) ∷ put key v d

  -- `del d[key]`, of every entry with that key: a dictionary has at most one.
  unfoldable pub remove : String → List (String × V) → List (String × V)
  remove key [] = []
  remove key ((other, w) ∷ d) =
      let rest = remove key d in if str_eq other key then rest else (other, w) ∷ rest

  pub lookup-put :
      (key other : String) (v : V) (d : List (String × V))
      → lookup other (put key v d) ≡ (if str_eq key other then some v else lookup other d)
  unfolding lookup put
  lookup-put key other v [] = refl
  lookup-put key other v ((k, w) ∷ d) =
      ground (arith, eq_iff key other, eq_iff k key, eq_iff k other, lookup-put key other v d)

  pub lookup-remove :
      (key other : String) (d : List (String × V))
      → lookup other (remove key d) ≡ (if str_eq key other then none else lookup other d)
  unfolding lookup remove
  lookup-remove key other [] = ground arith
  lookup-remove key other ((k, w) ∷ d) =
      ground (arith, eq_iff key other, eq_iff k key, eq_iff k other, lookup-remove key other d)

  -- Every key stands once, as in every dictionary that Python makes.
  abbrev pub IsDict : List (String × V) → Type 0
  IsDict [] = Unit
  IsDict ((key, v) ∷ d) = (lookup key d ≡ none) × IsDict d

  lookup-nil : (key : String) → lookup key [] ≡ none
  unfolding lookup
  lookup-nil key = refl

  pub IsDict-put : (key : String) (v : V) (d : List (String × V)) → IsDict d → IsDict (put key v d)
  unfolding put
  IsDict-put key v [] h = (lookup-nil key, tt)
  IsDict-put key v ((other, w) ∷ d) (new, h) = elim (Bool-cases (str_eq other key)) [
    | inl same ↦ rw same (new, h)
    | inr differs ↦
        rw differs
          (lookup-put key other v d ∙ rw (not_same key other differs) new, IsDict-put key v d h)
  ]

  pub IsDict-remove : (key : String) (d : List (String × V)) → IsDict d → IsDict (remove key d)
  unfolding remove
  IsDict-remove key [] h = tt
  IsDict-remove key ((other, w) ∷ d) (new, h) = elim (Bool-cases (str_eq other key)) [
    | inl same ↦ rw same (IsDict-remove key d h)
    | inr differs ↦
        rw differs
          (lookup-remove key other d ∙ rw (not_same key other differs) new, IsDict-remove key d h)
  ]

  -- The sum of a measure over the values.
  abbrev pub total : (V → ℕ) → List (String × V) → ℕ
  total f [] = 0
  total f ((key, v) ∷ d) = f v + total f d

  pub total-put_new :
      (f : V → ℕ) (key : String) (v : V) (d : List (String × V))
      → lookup key d ≡ none
      → total f (put key v d) ≡ total f d + f v
  unfolding lookup put
  total-put_new f key v [] h = omega arith
  total-put_new f key v ((other, w) ∷ d) h = ground (arith, total-put_new f key v d)

  remove_absent : (key : String) (d : List (String × V)) → lookup key d ≡ none → remove key d ≡ d
  unfolding lookup remove
  remove_absent key [] h = refl
  remove_absent key ((other, w) ∷ d) h = ground (arith, remove_absent key d)

  pub total-remove :
      (f : V → ℕ) (key : String) (v : V) (d : List (String × V))
      → IsDict d
      → lookup key d ≡ some v
      → total f (remove key d) + f v ≡ total f d
  unfolding lookup remove
  total-remove f key v [] h e = cc
  total-remove f key v ((other, w) ∷ d) (new, h) e =
      ground (arith, eq_iff other key, remove_absent key d, total-remove f key v d)

  pub remove-put_same :
      (key : String) (v : V) (d : List (String × V))
      → lookup key d ≡ none
      → remove key (put key v d) ≡ d
  unfolding lookup put remove
  remove-put_same key v [] h = ground (arith, str_eq_self key)
  remove-put_same key v ((other, w) ∷ d) h = ground (arith, remove-put_same key v d)

  pub remove-put_other :
      (key other : String) (v : V) (d : List (String × V))
      → str_eq key other ≡ false
      → remove key (put other v d) ≡ put other v (remove key d)
  unfolding put remove
  remove-put_other key other v [] h = ground (arith, not_same other key)
  remove-put_other key other v ((k, w) ∷ d) h =
      ground (arith, eq_iff key other, eq_iff k key, eq_iff k other, remove-put_other key other v d)
