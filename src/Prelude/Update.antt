-- ===== src/Prelude/Update.antt =====
-- Laws of updates of a table: what is found afterwards, and what every row keeps.
use mathlib.Core.Path.{◌≡◌, refl, sym, subst, ◌∙◌}
use mathlib.Core.Logic.{inl, inr}
use mathlib.Core.Bool.{Bool, true}
use mathlib.Core.Option.{some, some-injective}
use mathlib.Core.List.{List, [], ◌∷◌, ◌++◌, map}
use native.Mathlib.Omega.{arith}
use Prim.Native.String.{String}
use text.Mathlib.TextEquality.{eq_iff}
use babeltower.Prelude.Tests.{if◌then◌else◌, Bool-cases, ◌==◌, string_eq}
use babeltower.Prelude.Table.{All, find, update_where, update_row, delete_where, find_sound}

-- An update that keeps the key does not lose a row, nor what it keeps of the row that is found.
pub find-update_row-keeps {ℓ κ} :
    {A : Type ℓ} (Q : A → Type κ) (p q : A → Bool) (f : A → A) (xs : List A) {x : A}
    → ((y : A) → p (f y) ≡ p y)
    → ((y : A) → Q y → Q (f y))
    → find p xs ≡ some x
    → Q x
    → (y : A) × (find p (update_row q f xs) ≡ some y) × Q y
unfolding find update_row
find-update_row-keeps Q p q f [] k h e c = absurd (ground (arith, e))
find-update_row-keeps Q p q f (y ∷ xs) {x} k h e c = elim (Bool-cases (p y)) [
  | inl t ↦
      let here : Q y = subst Q (sym (some-injective y x (ground (arith, e, t)))) c in
      elim (Bool-cases (q y)) [
        | inl u ↦ (f y, rw (u, k y, t) refl, h y here)
        | inr u ↦ (y, rw (u, t) refl, here)
      ]
  | inr t ↦
      let rest = find-update_row-keeps Q p q f xs {x = x} k h (ground (arith, e, t)) c in
      elim (Bool-cases (q y)) [
        | inl u ↦ (x, rw (u, k y, t) (ground (arith, e, t)), c)
        | inr u ↦ (rest.0, rw (u, t) rest.1, rest.2)
      ]
]

-- What is found has the same column `g`.
pub find-update_row-same {ℓ κ} :
    {A : Type ℓ} {B : Type κ} (p q : A → Bool) (f : A → A) (g : A → B) (xs : List A) {x : A}
    → ((y : A) → p (f y) ≡ p y)
    → ((y : A) → g (f y) ≡ g y)
    → find p xs ≡ some x
    → (y : A) × (find p (update_row q f xs) ≡ some y) × (g y ≡ g x)
find-update_row-same p q f g xs {x} k h e =
    find-update_row-keeps (λ y. g y ≡ g x) p q f xs {x = x} k (λ y c. h y ∙ c) e refl

-- The same of an update of all rows that pass a test.
pub find-update_where-keeps {ℓ κ} :
    {A : Type ℓ} (Q : A → Type κ) (p q : A → Bool) (f : A → A) (xs : List A) {x : A}
    → ((y : A) → p (f y) ≡ p y)
    → ((y : A) → Q y → Q (f y))
    → find p xs ≡ some x
    → Q x
    → (y : A) × (find p (update_where q f xs) ≡ some y) × Q y
unfolding find update_where
find-update_where-keeps Q p q f [] k h e c = absurd (ground (arith, e))
find-update_where-keeps Q p q f (y ∷ xs) {x} k h e c = elim (Bool-cases (p y)) [
  | inl t ↦
      let here : Q y = subst Q (sym (some-injective y x (ground (arith, e, t)))) c in
      elim (Bool-cases (q y)) [
        | inl u ↦ (f y, rw (u, k y, t) refl, h y here)
        | inr u ↦ (y, rw (u, t) refl, here)
      ]
  | inr t ↦
      let rest = find-update_where-keeps Q p q f xs {x = x} k h (ground (arith, e, t)) c in
      elim (Bool-cases (q y)) [
        | inl u ↦ (rest.0, rw (u, k y, t) rest.1, rest.2)
        | inr u ↦ (rest.0, rw (u, t) rest.1, rest.2)
      ]
]

-- A column that an update leaves alone.
module _ {ℓ κ} {A : Type ℓ} {B : Type κ} (g : A → B) (p : A → Bool) (f : A → A)
    (same : (x : A) → g (f x) ≡ g x) where
  pub map-update_where : (xs : List A) → map g (update_where p f xs) ≡ map g xs
  unfolding update_where
  map-update_where [] = refl
  map-update_where (x ∷ xs) = elim (Bool-cases (p x)) [
    | inl t ↦ rw (t, same x, map-update_where xs)
    | inr t ↦ rw (t, map-update_where xs)
  ]

  pub map-update_row : (xs : List A) → map g (update_row p f xs) ≡ map g xs
  unfolding update_row
  map-update_row [] = refl
  map-update_row (x ∷ xs) = elim (Bool-cases (p x)) [
    | inl t ↦ rw t (rw (same x))
    | inr t ↦ rw t (rw (map-update_row xs))
  ]

module _ {ℓ κ} {A : Type ℓ} (P : A → Type κ) where
  pub All-append : (xs ys : List A) → All P xs → All P ys → All P (xs ++ ys)
  All-append [] ys hx hy = hy
  All-append (x ∷ xs) ys hx hy = (hx.0, All-append xs ys hx.1 hy)

  pub All-find : (p : A → Bool) (xs : List A) {x : A} → All P xs → find p xs ≡ some x → P x
  unfolding find
  All-find p [] h e = ground arith
  All-find p (y ∷ xs) {x} h e = elim (Bool-cases (p y)) [
    | inl t ↦ ground (arith, h.0)
    | inr t ↦ All-find p xs {x = x} h.1 (ground arith)
  ]

  pub All-update :
      (p : A → Bool) (f : A → A) (xs : List A)
      → ((x : A) → p x ≡ true → P x → P (f x))
      → All P xs
      → All P (update_where p f xs)
  unfolding update_where
  All-update p f [] k h = tt
  All-update p f (x ∷ xs) k h = (one, All-update p f xs k h.1)
    where
      one : P (if p x then f x else x)
      one = elim (Bool-cases (p x)) [ inl t ↦ rw t (k x t h.0) | inr t ↦ rw t h.0 ]

  pub All-update_row :
      (p : A → Bool) (f : A → A) (xs : List A)
      → ((x : A) → find p xs ≡ some x → P x → P (f x))
      → All P xs
      → All P (update_row p f xs)
  unfolding find update_row
  All-update_row p f [] k h = tt
  All-update_row p f (x ∷ xs) k h = elim (Bool-cases (p x)) [
    | inl t ↦ rw t (k x (rw t) h.0, h.1)
    | inr t ↦ rw t (h.0, All-update_row p f xs (λ y e. k y (rw t e)) h.1)
  ]

  pub All-delete : (p : A → Bool) (xs : List A) → All P xs → All P (delete_where p xs)
  unfolding delete_where
  All-delete p [] h = tt
  All-delete p (x ∷ xs) h = elim (Bool-cases (p x)) [
    | inl t ↦ rw t (All-delete p xs h.1)
    | inr t ↦ rw t (h.0, All-delete p xs h.1)
  ]

-- A row that was found by a key is found by its own key.
pub find_own {ℓ} :
    {A : Type ℓ} (key : A → String) (k : String) (xs : List A) {x : A}
    → find (λ y. key y == k) xs ≡ some x
    → find (λ y. key y == key x) xs ≡ some x
find_own key k xs {x} e =
    let same : key x ≡ k = (eq_iff (key x) k).0 (find_sound (λ y. key y == k) xs e) in rw same e
