-- ===== src/Prelude/Member.antt =====
-- Membership of a row in a list, through the clauses of a query.
use Prim.Native.Nat.{ℕ, zero, suc}
use mathlib.Core.Path.{◌≡◌, refl, sym, subst, ◌∙◌, ap}
use mathlib.Core.Logic.{◌⊎◌, inl, inr, ◌↔◌, Lift}
use mathlib.Core.Bool.{Bool, true, false}
use mathlib.Core.Option.{Option, none, some, some-injective}
use mathlib.Core.List.{List, [], ◌∷◌, ◌++◌, map}
use native.Mathlib.Omega.{arith}
use babeltower.Prelude.Tests.{if◌then◌else◌, Bool-cases}
use babeltower.Prelude.Table.{All, update_row, update_where, select, find, delete_where}
use babeltower.Prelude.Sort.{insert_by, sort_by, take, drop, with_row, join_rows}

abbrev pub In {ℓ} : {A : Type ℓ} → A → List A → Type ℓ
In x [] = Lift {0, ℓ} ⊥
In x (y ∷ ys) = (x ≡ y) ⊎ In x ys

module _ {ℓ} {A : Type ℓ} where
  pub All-In : (P : A → Type 0) (xs : List A) {x : A} → All P xs → In x xs → P x
  All-In P [] h i = absurd i.lower
  All-In P (y ∷ ys) {x} h (inl e) = subst P (sym e) h.0
  All-In P (y ∷ ys) {x} h (inr i) = All-In P ys {x = x} h.1 i

  In-if :
      (b : Bool) (y : A) (rest : List A) {x : A}
      → In x (if b then y ∷ rest else rest) ↔ (((x ≡ y) × (b ≡ true)) ⊎ In x rest)
  In-if true y rest = (
    λ s. elim s [ inl e ↦ inl (e, refl) | inr i ↦ inr i ],
    λ s. elim s [ inl (e, t) ↦ inl e | inr i ↦ inr i ],
  )
  In-if false y rest = (inr, λ s. elim s [ inl (e, t) ↦ absurd (ground (arith, t)) | inr i ↦ i ])

  pub In-select-to :
      (p : A → Bool) (xs : List A) {x : A} → In x (select p xs) → In x xs × (p x ≡ true)
  unfolding select
  In-select-to p [] i = absurd i.lower
  In-select-to p (y ∷ ys) {x} i = elim ((In-if (p y) y (select p ys) {x = x}).0 i) [
    | inl (e, t) ↦ (inl e, ap p e ∙ t)
    | inr k ↦ let r = In-select-to p ys {x = x} k in (inr r.0, r.1)
  ]

  pub In-select-from :
      (p : A → Bool) (xs : List A) {x : A} → In x xs → p x ≡ true → In x (select p xs)
  unfolding select
  In-select-from p [] i t = absurd i.lower
  In-select-from p (y ∷ ys) {x} (inl e) t =
      (In-if (p y) y (select p ys) {x = x}).1 (inl (e, ap p (sym e) ∙ t))
  In-select-from p (y ∷ ys) {x} (inr i) t =
      (In-if (p y) y (select p ys) {x = x}).1 (inr (In-select-from p ys {x = x} i t))

  -- Which of two rows stands first does not matter.
  In-swap :
      (b : Bool) (y z : A) (ys zs : List A) {x : A}
      → In x ys ↔ ((x ≡ y) ⊎ In x zs)
      → In x (if b then y ∷ z ∷ zs else z ∷ ys) ↔ ((x ≡ y) ⊎ In x (z ∷ zs))
  In-swap true y z ys zs h = (λ i. i, λ i. i)
  In-swap false y z ys zs h = (
    λ s. elim s [
      | inl e ↦ inr (inl e)
      | inr i ↦ elim (h.0 i) [ inl e ↦ inl e | inr k ↦ inr (inr k) ]
    ],
    λ s. elim s [
      | inl e ↦ inr (h.1 (inl e))
      | inr (inl e) ↦ inl e
      | inr (inr k) ↦ inr (h.1 (inr k))
    ],
  )

  In-insert_by :
      (le : A → A → Bool) (y : A) (ys : List A) {x : A}
      → In x (insert_by le y ys) ↔ ((x ≡ y) ⊎ In x ys)
  unfolding insert_by
  In-insert_by le y [] = (λ i. i, λ i. i)
  In-insert_by le y (z ∷ zs) {x} =
      In-swap (le y z) y z (insert_by le y zs) zs {x = x} (In-insert_by le y zs {x = x})

  pub In-sort_by : (le : A → A → Bool) (xs : List A) (x : A) → In x (sort_by le xs) ↔ In x xs
  unfolding sort_by
  In-sort_by le [] x = (λ i. i, λ i. i)
  In-sort_by le (y ∷ ys) x =
      let h = In-insert_by le y (sort_by le ys) {x = x} in
      let r = In-sort_by le ys x in
      (
        λ i. elim (h.0 i) [ inl e ↦ inl e | inr k ↦ inr (r.0 k) ],
        λ s. elim s [ inl e ↦ h.1 (inl e) | inr k ↦ h.1 (inr (r.1 k)) ],
      )

  pub In-find : (p : A → Bool) (xs : List A) {x : A} → find p xs ≡ some x → In x xs
  unfolding find
  In-find p [] e = absurd (ground (arith, e))
  In-find p (y ∷ ys) {x} e = elim (Bool-cases (p y)) [
    | inl t ↦ inl (some-injective x y (ground (arith, e, t)))
    | inr t ↦ inr (In-find p ys {x = x} (ground (arith, e, t)))
  ]

  pub In-delete_where :
      (p : A → Bool) (xs : List A) {x : A} → In x (delete_where p xs) → In x xs × (p x ≡ false)
  unfolding delete_where
  In-delete_where p [] i = absurd i.lower
  In-delete_where p (y ∷ ys) {x} i = elim (Bool-cases (p y)) [
    | inl t ↦
        let k : In x (delete_where p ys) = rw t at i in
        let r = In-delete_where p ys {x = x} k in (inr r.0, r.1)
    | inr t ↦
        let k : In x (y ∷ delete_where p ys) = rw t at i in
        elim k [
          | inl e ↦ (inl e, ap p e ∙ t)
          | inr j ↦ let r = In-delete_where p ys {x = x} j in (inr r.0, r.1)
        ]
  ]

  pub In-take-drop : (n : ℕ) (xs : List A) (x : A) → In x xs → In x (take n xs) ⊎ In x (drop n xs)
  unfolding take drop
  In-take-drop zero xs x i = inr i
  In-take-drop (suc n) [] x i = inl i
  In-take-drop (suc n) (y ∷ ys) x (inl e) = inl (inl e)
  In-take-drop (suc n) (y ∷ ys) x (inr i) = elim (In-take-drop n ys x i) [
    | inl k ↦ inl (inr k)
    | inr k ↦ inr k
  ]

  -- A row is still there after an update, changed or not.
  pub In-update_row :
      (p : A → Bool) (f : A → A) (xs : List A) (x : A)
      → In x xs
      → In x (update_row p f xs) ⊎ In (f x) (update_row p f xs)
  unfolding update_row
  In-update_row p f [] x i = absurd i.lower
  In-update_row p f (y ∷ ys) x i = elim (Bool-cases (p y)) [
    | inl t ↦ rw t (elim i [ inl e ↦ inr (inl (ap f e)) | inr k ↦ inl (inr k) ])
    | inr t ↦ rw t (elim i [
      | inl e ↦ inl (inl e)
      | inr k ↦ elim (In-update_row p f ys x k) [ inl j ↦ inl (inr j) | inr j ↦ inr (inr j) ]
    ])
  ]

  pub In-update_where :
      (p : A → Bool) (f : A → A) (xs : List A) (x : A)
      → In x xs
      → In (if p x then f x else x) (update_where p f xs)
  unfolding update_where
  In-update_where p f [] x i = absurd i.lower
  In-update_where p f (y ∷ ys) x (inl e) = inl (ap (λ z. if p z then f z else z) e)
  In-update_where p f (y ∷ ys) x (inr i) = inr (In-update_where p f ys x i)

  pub In-append : (xs ys : List A) (x : A) → In x ys → In x (xs ++ ys)
  In-append [] ys x i = i
  In-append (y ∷ xs) ys x i = inr (In-append xs ys x i)

module _ {κ} {B : Type κ} where
  In-with_row :
      (o : Option B) (rest : List B) {y : B} → In y (with_row o rest) ↔ ((o ≡ some y) ⊎ In y rest)
  In-with_row none rest = (inr, λ s. elim s [ inl e ↦ absurd (ground (arith, e)) | inr i ↦ i ])
  In-with_row (some z) rest {y} = (
    λ s. elim s [ inl e ↦ inl (ap some (sym e)) | inr i ↦ inr i ],
    λ s. elim s [ inl e ↦ inl (sym (some-injective z y e)) | inr i ↦ inr i ],
  )

module _ {ℓ κ} {A : Type ℓ} {B : Type κ} where
  pub In-map : (f : A → B) (xs : List A) {y : B} → In y (map f xs) ↔ ((x : A) × In x xs × (y ≡ f x))
  In-map f [] = (λ i. absurd i.lower, λ i. absurd (i.1).lower)
  In-map f (x ∷ xs) {y} =
      let r = In-map f xs {y = y} in
      (
        λ s. elim s [ inl e ↦ (x, inl refl, e) | inr i ↦ let k = r.0 i in (k.0, inr k.1, k.2) ],
        λ (z, i, e). elim i [ inl q ↦ inl (e ∙ ap f q) | inr k ↦ inr (r.1 (z, k, e)) ],
      )

  pub In-join_rows :
      (f : A → Option B) (xs : List A) {y : B}
      → In y (join_rows f xs) ↔ ((x : A) × In x xs × (f x ≡ some y))
  unfolding join_rows
  In-join_rows f [] = (λ i. absurd i.lower, λ i. absurd (i.1).lower)
  In-join_rows f (x ∷ xs) {y} =
      let h = In-with_row (f x) (join_rows f xs) {y = y} in
      let r = In-join_rows f xs {y = y} in
      (
        λ i. elim (h.0 i) [
          | inl e ↦ (x, inl refl, e)
          | inr k ↦ let q = r.0 k in (q.0, inr q.1, q.2)
        ],
        λ (z, i, e). elim i [
          | inl q ↦ h.1 (inl (ap f (sym q) ∙ e))
          | inr k ↦ h.1 (inr (r.1 (z, k, e)))
        ],
      )

-- A query with a WHERE, joins, an order and a result for each row: what it gives.
pub In-query {ℓ κ κ'} :
    {A : Type ℓ} {B : Type κ} {C : Type κ'} (p : A → Bool) (j : A → Option B) (le : B → B → Bool)
    (f : B → C) (xs : List A) {y : C}
    → In y (map f (sort_by le (join_rows j (select p xs))))
      ↔ ((x : A) × (row : B) × In x xs × (p x ≡ true) × (j x ≡ some row) × (y ≡ f row))
In-query p j le f xs {y} = (
  λ i.
      let m = (In-map f (sort_by le (join_rows j (select p xs)))).0 i in
      let r =
        (In-join_rows j (select p xs)).0 ((In-sort_by le (join_rows j (select p xs)) m.0).0 m.1) in
      let s = In-select-to p xs {x = r.0} r.1 in (r.0, m.0, s.0, s.1, r.2, m.2),
  λ (x, row, i, t, e, q). (In-map f (sort_by le (join_rows j (select p xs)))).1 (
    row,
    (In-sort_by le (join_rows j (select p xs)) row).1
        ((In-join_rows j (select p xs)).1 (x, In-select-from p xs {x = x} i t, e)),
    q,
  ),
)
