-- ===== src/Prelude/Evolves.antt =====
-- How a table changes: rows stay in their places and are never removed, each follows the row that it
-- was, and new rows are added at the end.
use mathlib.Core.Path.{◌≡◌}
use mathlib.Core.Logic.{inl, inr}
use mathlib.Core.Bool.{Bool, true}
use mathlib.Core.Option.{some}
use mathlib.Core.List.{List, [], ◌∷◌, ◌++◌}
use babeltower.Prelude.Tests.{if◌then◌else◌, Bool-cases}
use babeltower.Prelude.Table.{All, find, update_where, update_row}

module _ {ℓ} {A : Type ℓ} (Follows : A → A → Type 0) (New : A → Type 0) where
  abbrev pub Evolves : List A → List A → Type 0
  Evolves [] ys = All New ys
  Evolves (x ∷ xs) [] = ⊥
  Evolves (x ∷ xs) (y ∷ ys) = Follows x y × Evolves xs ys

  pub Evolves-append_new :
      (xs ys : List A) (z : A) → Evolves xs ys → New z → Evolves xs (ys ++ z ∷ [])
  Evolves-append_new [] [] z e n = (n, tt)
  Evolves-append_new [] (y ∷ ys) z e n = (e.0, Evolves-append_new [] ys z e.1 n)
  Evolves-append_new (x ∷ xs) [] z e n = absurd e
  Evolves-append_new (x ∷ xs) (y ∷ ys) z e n = (e.0, Evolves-append_new xs ys z e.1 n)

module _ {ℓ} {A : Type ℓ} (Follows : A → A → Type 0) (New : A → Type 0)
    (same : (x : A) → Follows x x) where
  pub Evolves-refl : (xs : List A) → Evolves Follows New xs xs
  Evolves-refl [] = tt
  Evolves-refl (x ∷ xs) = (same x, Evolves-refl xs)

  pub Evolves-update_where :
      (p : A → Bool) (f : A → A) (xs : List A)
      → ((x : A) → p x ≡ true → Follows x (f x))
      → Evolves Follows New xs (update_where p f xs)
  unfolding update_where
  Evolves-update_where p f [] h = tt
  Evolves-update_where p f (x ∷ xs) h = (one, Evolves-update_where p f xs h)
    where
      one : Follows x (if p x then f x else x)
      one = elim (Bool-cases (p x)) [ inl t ↦ rw t (h x t) | inr t ↦ rw t (same x) ]

  -- What is known of the row that `find` picks may be used.
  pub Evolves-update_row :
      (p : A → Bool) (f : A → A) (xs : List A)
      → ((x : A) → find p xs ≡ some x → Follows x (f x))
      → Evolves Follows New xs (update_row p f xs)
  unfolding find update_row
  Evolves-update_row p f [] h = tt
  Evolves-update_row p f (x ∷ xs) h = elim (Bool-cases (p x)) [
    | inl t ↦ rw t (h x (rw t), Evolves-refl xs)
    | inr t ↦ rw t (same x, Evolves-update_row p f xs (λ y e. h y (rw t e)))
  ]

module _ {ℓ} {A : Type ℓ} (Follows : A → A → Type 0) (New : A → Type 0)
    (trans : (x y z : A) → Follows x y → Follows y z → Follows x z)
    (new : (x y : A) → New x → Follows x y → New y) where
  pub Evolves-trans :
      (xs ys zs : List A)
      → Evolves Follows New xs ys
      → Evolves Follows New ys zs
      → Evolves Follows New xs zs
  Evolves-trans [] [] zs e f = f
  Evolves-trans [] (y ∷ ys) [] e f = absurd f
  Evolves-trans [] (y ∷ ys) (z ∷ zs) e f = (new y z e.0 f.0, Evolves-trans [] ys zs e.1 f.1)
  Evolves-trans (x ∷ xs) [] zs e f = absurd e
  Evolves-trans (x ∷ xs) (y ∷ ys) [] e f = absurd f
  Evolves-trans (x ∷ xs) (y ∷ ys) (z ∷ zs) e f =
      (trans x y z e.0 f.0, Evolves-trans xs ys zs e.1 f.1)
