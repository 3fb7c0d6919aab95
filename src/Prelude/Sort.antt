-- ===== src/Prelude/Sort.antt =====
-- ORDER BY and LIMIT: a stable insertion sort by a test, and the first rows of a list.
use Prim.Native.Nat.{ℕ, zero, suc, ◌+◌, ◌≤◌}
use mathlib.Core.Path.{◌≡◌, refl, ap}
use mathlib.Core.Logic.{◌⊎◌, inl, inr}
use mathlib.Core.Bool.{Bool, true, false}
use mathlib.Core.Option.{Option, none, some}
use mathlib.Core.List.{List, [], ◌∷◌}
use native.Mathlib.Omega.{arith}
use babeltower.Prelude.Tests.{if◌then◌else◌, Bool-cases}
use babeltower.Prelude.Table.{All, count, length, select}

module _ {ℓ} {A : Type ℓ} where
  -- `le x y`: the row x may stand before the row y.
  unfoldable pub insert_by : (A → A → Bool) → A → List A → List A
  insert_by le x [] = x ∷ []
  insert_by le x (y ∷ ys) = let rest = insert_by le x ys in if le x y then x ∷ y ∷ ys else y ∷ rest

  unfoldable pub sort_by : (A → A → Bool) → List A → List A
  unfolding insert_by
  sort_by le [] = []
  sort_by le (x ∷ xs) = insert_by le x (sort_by le xs)

  unfoldable pub take : ℕ → List A → List A
  take zero xs = []
  take (suc n) [] = []
  take (suc n) (x ∷ xs) = x ∷ take n xs

  unfoldable pub drop : ℕ → List A → List A
  drop zero xs = xs
  drop (suc n) [] = []
  drop (suc n) (x ∷ xs) = drop n xs

  abbrev pub with_row : Option A → List A → List A
  with_row none rest = rest
  with_row (some y) rest = y ∷ rest

  -- An inner join: the rows that `f` finds for the rows of a table.
  unfoldable pub join_rows {κ} : {B : Type κ} → (B → Option A) → List B → List A
  join_rows f [] = []
  join_rows f (x ∷ xs) = with_row (f x) (join_rows f xs)

  -- No row may stand before an earlier one only.
  abbrev pub IsSorted : (A → A → Bool) → List A → Type ℓ
  IsSorted le [] = Unit
  IsSorted le (x ∷ xs) = All (λ y. le x y ≡ true) xs × IsSorted le xs

module _ {ℓ κ} {A : Type ℓ} (P : A → Type κ) (le : A → A → Bool) where
  All-insert_by : (x : A) (ys : List A) → P x → All P ys → All P (insert_by le x ys)
  unfolding insert_by
  All-insert_by x [] h k = (h, tt)
  All-insert_by x (y ∷ ys) h k = elim (Bool-cases (le x y)) [
    | inl t ↦ rw t (h, k)
    | inr t ↦ rw t (k.0, All-insert_by x ys h k.1)
  ]

  pub All-sort_by : (xs : List A) → All P xs → All P (sort_by le xs)
  unfolding sort_by
  All-sort_by [] h = tt
  All-sort_by (x ∷ xs) h = All-insert_by x (sort_by le xs) h.0 (All-sort_by xs h.1)

module _ {ℓ} {A : Type ℓ} (le : A → A → Bool) where
  count-insert_by :
      (p : A → Bool) (x : A) (ys : List A)
      → count p (insert_by le x ys) ≡ (if p x then 1 else 0) + count p ys
  unfolding insert_by count
  count-insert_by p x [] = refl
  count-insert_by p x (y ∷ ys) = ground (arith, count-insert_by p x ys)

  -- Sorting keeps the rows and how often each is there.
  pub count-sort_by : (p : A → Bool) (xs : List A) → count p (sort_by le xs) ≡ count p xs
  unfolding sort_by count
  count-sort_by p [] = refl
  count-sort_by p (x ∷ xs) = ground (arith, count-insert_by p x (sort_by le xs), count-sort_by p xs)

module _ {ℓ} {A : Type ℓ} (le : A → A → Bool) (total : (x y : A) → le x y ≡ false → le y x ≡ true)
    (trans : (x y z : A) → le x y ≡ true → le y z ≡ true → le x z ≡ true) where
  All-below :
      (x y : A) (zs : List A)
      → le x y ≡ true
      → All (λ z. le y z ≡ true) zs
      → All (λ z. le x z ≡ true) zs
  All-below x y [] h k = tt
  All-below x y (z ∷ zs) h k = (trans x y z h k.0, All-below x y zs h k.1)

  insert_by-IsSorted : (x : A) (ys : List A) → IsSorted le ys → IsSorted le (insert_by le x ys)
  unfolding insert_by
  insert_by-IsSorted x [] h = (tt, tt)
  insert_by-IsSorted x (y ∷ ys) h = elim (Bool-cases (le x y)) [
    | inl t ↦ rw t ((t, All-below x y ys t h.0), h)
    | inr t ↦
        rw t (
          All-insert_by (λ z. le y z ≡ true) le x ys (total x y t) h.0,
          insert_by-IsSorted x ys h.1,
        )
  ]

  pub sort_by-IsSorted : (xs : List A) → IsSorted le (sort_by le xs)
  unfolding sort_by
  sort_by-IsSorted [] = tt
  sort_by-IsSorted (x ∷ xs) = insert_by-IsSorted x (sort_by le xs) (sort_by-IsSorted xs)

module _ {ℓ κ} {A : Type ℓ} (P : A → Type κ) where
  pub All-take : (n : ℕ) (xs : List A) → All P xs → All P (take n xs)
  unfolding take
  All-take zero xs h = tt
  All-take (suc n) [] h = tt
  All-take (suc n) (x ∷ xs) h = (h.0, All-take n xs h.1)

  All-with_row :
      (o : Option A) (rest : List A)
      → ((y : A) → o ≡ some y → P y)
      → All P rest
      → All P (with_row o rest)
  All-with_row none rest h k = k
  All-with_row (some y) rest h k = (h y refl, k)

  -- The rows of a join have what every row that it finds has.
  pub All-join_rows {κ'} :
      {B : Type κ'} (f : B → Option A) (xs : List B)
      → ((x : B) (y : A) → f x ≡ some y → P y)
      → All P (join_rows f xs)
  unfolding join_rows
  All-join_rows f [] h = tt
  All-join_rows f (x ∷ xs) h = All-with_row (f x) (join_rows f xs) (h x) (All-join_rows f xs h)

  pub All-mono {κ'} : (Q : A → Type κ') (xs : List A) → ((x : A) → P x → Q x) → All P xs → All Q xs
  All-mono Q [] h k = tt
  All-mono Q (x ∷ xs) h k = (h x k.0, All-mono Q xs h k.1)

  pub All-select :
      (p : A → Bool) (xs : List A) → All P xs → All (λ x. P x × (p x ≡ true)) (select p xs)
  unfolding select
  All-select p [] h = tt
  All-select p (x ∷ xs) h = elim (Bool-cases (p x)) [
    | inl t ↦ rw t ((h.0, t), All-select p xs h.1)
    | inr t ↦ rw t (All-select p xs h.1)
  ]

module _ {ℓ} {A : Type ℓ} where
  pub length-take : (n : ℕ) (xs : List A) → length (take n xs) ≤ n
  unfolding take
  length-take zero xs = omega arith
  length-take (suc n) [] = omega arith
  length-take (suc n) (x ∷ xs) = omega (arith, length-take n xs)

  -- The rows that the limit cuts off stand behind all that it leaves.
  pub take_first :
      (le : A → A → Bool) (n : ℕ) (xs : List A)
      → IsSorted le xs
      → All (λ x. All (λ y. le x y ≡ true) (drop n xs)) (take n xs)
  unfolding take drop
  take_first le zero xs h = tt
  take_first le (suc n) [] h = tt
  take_first le (suc n) (x ∷ xs) h = (All-drop n xs h.0, take_first le n xs h.1)
    where
      All-drop :
          (n : ℕ) (ys : List A) → All (λ y. le x y ≡ true) ys → All (λ y. le x y ≡ true) (drop n ys)
      All-drop zero ys k = k
      All-drop (suc n) [] k = tt
      All-drop (suc n) (y ∷ ys) k = All-drop n ys k.1

  pub IsSorted-take :
      (le : A → A → Bool) (n : ℕ) (xs : List A) → IsSorted le xs → IsSorted le (take n xs)
  unfolding take
  IsSorted-take le zero xs h = tt
  IsSorted-take le (suc n) [] h = tt
  IsSorted-take le (suc n) (x ∷ xs) h = (cut n xs h.0, IsSorted-take le n xs h.1)
    where
      cut :
          (n : ℕ) (ys : List A) → All (λ y. le x y ≡ true) ys → All (λ y. le x y ≡ true) (take n ys)
      cut zero ys k = tt
      cut (suc n) [] k = tt
      cut (suc n) (y ∷ ys) k = (k.0, cut n ys k.1)

  pub count-take-drop :
      (p : A → Bool) (n : ℕ) (xs : List A) → count p (take n xs) + count p (drop n xs) ≡ count p xs
  unfolding take drop count
  count-take-drop p zero xs = omega arith
  count-take-drop p (suc n) [] = omega arith
  count-take-drop p (suc n) (x ∷ xs) = omega (arith, count-take-drop p n xs)

  -- A limit leaves rows out only where it is reached.
  pub drop-cases : (n : ℕ) (xs : List A) → (drop n xs ≡ []) ⊎ (length (take n xs) ≡ n)
  unfolding take drop
  drop-cases zero xs = inr refl
  drop-cases (suc n) [] = inl refl
  drop-cases (suc n) (x ∷ xs) = elim (drop-cases n xs) [ inl e ↦ inl e | inr e ↦ inr (ap suc e) ]

-- A test that no row passes, where the rows that pass are too few for one.
pub All-unselected {ℓ κ} :
    {A : Type ℓ} (Q : A → Type κ) (p : A → Bool) (xs : List A)
    → ((x : A) → Q x → p x ≡ true)
    → length (select p xs) ≤ 0
    → All (λ x. ¬ Q x) xs
unfolding select
All-unselected Q p [] h k = tt
All-unselected Q p (x ∷ xs) h k = elim (Bool-cases (p x)) [
  | inl t ↦ absurd (ground (arith, t, k))
  | inr t ↦ (λ q. ground (arith, h x q, t), All-unselected Q p xs h (ground (arith, t, k)))
]
