-- ===== src/Prelude/Tests.antt =====
-- Boolean tests on numbers and texts, one equality for every type that has it, the conditional.
use Prim.Native.Nat.{ℕ, compare, Ordering}
use Prim.Native.String.{String}
use mathlib.Core.Path.{◌≡◌, refl}
use mathlib.Core.Logic.{◌↔◌, ◌⊎◌, inl, inr}
use mathlib.Core.Bool.{Bool, true, false}
use mathlib.Core.Option.{Option, none, some}
use native.Mathlib.Omega.{arith}
use text.Mathlib.Text.{◌==◌ as str_eq}
use text.Mathlib.TextEquality.{eq_iff}

abbrev pub ltb : ℕ → ℕ → Bool
ltb a b = elim (compare a b) [ Ordering.lt ↦ true | _ ↦ false ]

abbrev pub leb : ℕ → ℕ → Bool
leb a b = elim (compare a b) [ Ordering.gt ↦ false | _ ↦ true ]

abbrev pub nat_beq : ℕ → ℕ → Bool
nat_beq a b = elim (compare a b) [ Ordering.eq ↦ true | _ ↦ false ]

infix 1 if◌then◌else◌
abbrev pub if◌then◌else◌ {ℓ} : {A : Type ℓ} → Bool → A → A → A
if true then x else y = x
if false then x else y = y

pub nat_beq_iff : (a b : ℕ) → (nat_beq a b ≡ true) ↔ (a ≡ b)
nat_beq_iff a b = ground arith

-- A Boolean test that decides whether two values are the same.
pub record HasEq {ℓ} (A : Type ℓ) : Type ℓ where
  pub equals : A → A → Bool
  pub equals_iff : (x y : A) → (equals x y ≡ true) ↔ (x ≡ y)

-- SQL compares texts and numbers.
instance abbrev pub string_eq : HasEq String
string_eq = record { equals_iff = eq_iff; equals = str_eq }

instance abbrev pub nat_eq : HasEq ℕ
nat_eq = record { equals_iff = nat_beq_iff; equals = nat_beq }

module _ {ℓ} {A : Type ℓ} ⦃test : HasEq A⦄ where
  infix 50 ◌==◌ ◌!=◌
  abbrev pub ◌==◌ : A → A → Bool
  x == y = test.equals x y

  abbrev pub ◌!=◌ : A → A → Bool
  x != y = if x == y then false else true

pub Bool-cases : (b : Bool) → (b ≡ true) ⊎ (b ≡ false)
Bool-cases true = inl refl
Bool-cases false = inr refl

pub Option-cases {ℓ} : {A : Type ℓ} (o : Option A) → (o ≡ none) ⊎ ((a : A) × (o ≡ some a))
Option-cases none = inl refl
Option-cases (some a) = inr (a, refl)

abbrev pub is_none {ℓ} : {A : Type ℓ} → Option A → Bool
is_none none = true
is_none (some a) = false

-- A nullable column compared with a value: a comparison with NULL is not true.
abbrev pub column_is : Option String → String → Bool
column_is none v = false
column_is (some c) v = c == v

abbrev pub column_le : Option ℕ → ℕ → Bool
column_le none v = false
column_le (some c) v = leb c v

abbrev pub column_ge : Option ℕ → ℕ → Bool
column_ge none v = false
column_ge (some c) v = leb v c

abbrev pub column_lt : Option ℕ → ℕ → Bool
column_lt none v = false
column_lt (some c) v = ltb c v
