-- ===== src/Prelude/Table.antt =====
-- A database table as the list of its rows, and the statements that the program sends to it.
use Prim.Native.Nat.{ℕ, suc, ◌+◌, ◌≤◌}
use mathlib.Core.Path.{◌≡◌, refl, ap}
use mathlib.Core.Logic.{inl, inr}
use mathlib.Core.Bool.{Bool, true, false, ◌&&◌}
use mathlib.Core.Option.{Option, none, some}
use mathlib.Core.List.{List, [], ◌∷◌, ◌++◌}
use native.Mathlib.Omega.{arith}
use babeltower.Prelude.Tests.{if◌then◌else◌, Bool-cases, string_eq}

-- A predicate of every row.
abbrev pub All {ℓ κ} : {A : Type ℓ} → (A → Type κ) → List A → Type κ
All P [] = Unit
All P (x ∷ xs) = P x × All P xs

module _ {ℓ} {A : Type ℓ} where
  abbrev pub length : List A → ℕ
  length [] = 0
  length (x ∷ xs) = suc (length xs)

  pub length-append : (xs ys : List A) → length (xs ++ ys) ≡ length xs + length ys
  length-append [] ys = omega arith
  length-append (x ∷ xs) ys = omega (arith, length-append xs ys)

  -- SELECT … WHERE p
  unfoldable pub select : (A → Bool) → List A → List A
  select p [] = []
  select p (x ∷ xs) = let rest = select p xs in if p x then x ∷ rest else rest

  -- The row that a primary key or a unique column picks.
  unfoldable pub find : (A → Bool) → List A → Option A
  find p [] = none
  find p (x ∷ xs) = if p x then some x else find p xs

  -- SELECT count(*) … WHERE p
  unfoldable pub count : (A → Bool) → List A → ℕ
  count p [] = 0
  count p (x ∷ xs) = (if p x then 1 else 0) + count p xs

  -- UPDATE … WHERE p
  unfoldable pub update_where : (A → Bool) → (A → A) → List A → List A
  update_where p f [] = []
  update_where p f (x ∷ xs) = (if p x then f x else x) ∷ update_where p f xs

  -- UPDATE … WHERE id = …, the flush of one changed object: the row that `find` picks.
  unfoldable pub update_row : (A → Bool) → (A → A) → List A → List A
  update_row p f [] = []
  update_row p f (x ∷ xs) = if p x then f x ∷ xs else x ∷ update_row p f xs

  -- DELETE … WHERE p
  unfoldable pub delete_where : (A → Bool) → List A → List A
  delete_where p [] = []
  delete_where p (x ∷ xs) = let rest = delete_where p xs in if p x then rest else x ∷ rest

  pub count-append : (p : A → Bool) (xs ys : List A) → count p (xs ++ ys) ≡ count p xs + count p ys
  unfolding count
  count-append p [] ys = omega arith
  count-append p (x ∷ xs) ys = omega (arith, count-append p xs ys)

  -- An update that makes `q` true of no further row does not raise its count.
  pub count-update-le :
      (q p : A → Bool) (f : A → A) (xs : List A)
      → ((x : A) → p x ≡ true → q (f x) ≡ true → q x ≡ true)
      → count q (update_where p f xs) ≤ count q xs
  unfolding count update_where
  count-update-le q p f [] h = omega arith
  count-update-le q p f (x ∷ xs) h = ground (arith, h x, count-update-le q p f xs h)

  -- A stronger test counts no more rows.
  pub count_mono :
      (q p : A → Bool) (xs : List A) → ((x : A) → q x ≡ true → p x ≡ true) → count q xs ≤ count p xs
  unfolding count
  count_mono q p [] h = omega arith
  count_mono q p (x ∷ xs) h = ground (arith, h x, count_mono q p xs h)

  pub count-update_row-le :
      (q p : A → Bool) (f : A → A) (xs : List A)
      → ((x : A) → p x ≡ true → q (f x) ≡ true → q x ≡ true)
      → count q (update_row p f xs) ≤ count q xs
  unfolding count update_row
  count-update_row-le q p f [] h = omega arith
  count-update_row-le q p f (x ∷ xs) h = ground (arith, h x, count-update_row-le q p f xs h)

  -- Counting after an update, on the rows before it.
  pub count-update_where :
      (q p : A → Bool) (f : A → A) (xs : List A)
      → count q (update_where p f xs) ≡ count (λ x. q (if p x then f x else x)) xs
  unfolding count update_where
  count-update_where q p f [] = refl
  count-update_where q p f (x ∷ xs) = ground (arith, count-update_where q p f xs)

  pub count_ext : (q p : A → Bool) (xs : List A) → ((x : A) → q x ≡ p x) → count q xs ≡ count p xs
  unfolding count
  count_ext q p [] h = refl
  count_ext q p (x ∷ xs) h = ground (arith, h x, count_ext q p xs h)

  pub count_none : (p : A → Bool) (xs : List A) → ((x : A) → p x ≡ false) → count p xs ≡ 0
  unfolding count
  count_none p [] h = refl
  count_none p (x ∷ xs) h = ground (arith, h x, count_none p xs h)

  -- A row that is found and passes a further test is counted.
  pub count-find :
      (p q : A → Bool) (xs : List A) {x : A}
      → find p xs ≡ some x
      → q x ≡ true
      → 1 ≤ count (λ y. p y && q y) xs
  unfolding find count
  count-find p q [] e h = ground arith
  count-find p q (y ∷ xs) {x} e h = elim (Bool-cases (p y)) [
    | inl t ↦ ground (arith, e, t, h)
    | inr t ↦ ground (arith, t, count-find p q xs {x = x} (ground (arith, e, t)) h)
  ]

  -- Where the update keeps the key, the row that is found afterwards is the updated one.
  pub find-update_row :
      (p : A → Bool) (f : A → A) (xs : List A) {x : A}
      → ((y : A) → p y ≡ true → p (f y) ≡ true)
      → find p xs ≡ some x
      → find p (update_row p f xs) ≡ some (f x)
  unfolding find update_row
  find-update_row p f [] k e = ground arith
  find-update_row p f (y ∷ xs) {x} k e = ground (arith, k y, find-update_row p f xs {x = x} k)

  pub length-update :
      (p : A → Bool) (f : A → A) (xs : List A) → length (update_where p f xs) ≡ length xs
  unfolding update_where
  length-update p f [] = refl
  length-update p f (x ∷ xs) = ap suc (length-update p f xs)

  pub length-select : (p : A → Bool) (xs : List A) → length (select p xs) ≡ count p xs
  unfolding select count
  length-select p [] = refl
  length-select p (x ∷ xs) = ground (arith, length-select p xs)

  -- The row that is found passes the test.
  pub find_sound : (p : A → Bool) (xs : List A) {x : A} → find p xs ≡ some x → p x ≡ true
  unfolding find
  find_sound p [] e = ground arith
  find_sound p (y ∷ xs) {x} e = ground (arith, find_sound p xs {x = x})
