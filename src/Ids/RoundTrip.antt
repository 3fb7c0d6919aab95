-- ===== src/Ids/RoundTrip.antt =====
-- Reading back what `_encode_base32` writes.
use Prim.Native.Nat.{◌/◌, ◌%◌}
use Prim.Native.Char.{Char, code}
use mathlib.Core.List.{reverse, reverse-reverse}
use babeltower.Prelude.{
  ℕ, zero, suc, ◌+◌, ◌*◌, ◌<◌, String, ◌≡◌, refl, ap, Bool, true, false, ◌&&◌, List, [], ◌∷◌, arith,
  nat_beq, nat_beq_iff, Bool-cases, inl, inr, if◌then◌else◌,
}
use babeltower.Ids.{symbol, crockford, join_chars, remainders, encode_base32}

unfoldable pub index_of : Char → List Char → ℕ
index_of c [] = 0
index_of c (d ∷ ds) = if nat_beq (code c) (code d) then 0 else suc (index_of c ds)

-- A base-32 number, its last digit first.
unfoldable pub value_of : List Char → ℕ
value_of [] = 0
value_of (c ∷ cs) = index_of c crockford + 32 * value_of cs

abbrev pub letters : String → List Char
letters String.[] = []
letters (String.◌∷◌ c s) = c ∷ letters s

-- The number that a text is, in Crockford's base 32.
unfoldable pub decode_base32 : String → ℕ
decode_base32 s = value_of (reverse (letters s))

abbrev pub power32 : ℕ → ℕ
power32 zero = 1
power32 (suc n) = 32 * power32 n

-- A test that holds of every number below a bound.
abbrev pub all_below : ℕ → (ℕ → Bool) → Bool
all_below zero p = true
all_below (suc n) p = p n && all_below n p

both : (a b : Bool) → a && b ≡ true → (a ≡ true) × (b ≡ true)
both true true h = (refl, refl)
both true false h = cc
both false b h = cc

pub all_below_lem : (n : ℕ) (p : ℕ → Bool) (k : ℕ) → all_below n p ≡ true → k < n → p k ≡ true
all_below_lem zero p k h l = absurd (omega (arith, l))
all_below_lem (suc n) p k h l = elim (Bool-cases (nat_beq k n)) [
  | inl t ↦ rw ((nat_beq_iff k n).0 t) (both (p n) _ h).0
  | inr t ↦ all_below_lem n p k (both (p n) _ h).1 (ground (arith, t, l))
]

pub index_of-symbol : (d : ℕ) → d < 32 → index_of (symbol d) crockford ≡ d
unfolding symbol index_of
index_of-symbol d h =
    (nat_beq_iff _ d).0 (all_below_lem 32 (λ k. nat_beq (index_of (symbol k) crockford) k) d refl h)

pub letters-join_chars : (cs : List Char) → letters (join_chars cs) ≡ cs
letters-join_chars [] = refl
letters-join_chars (c ∷ cs) = ap (λ ds. c ∷ ds) (letters-join_chars cs)

value_of-remainders :
    (value width : ℕ) → value < power32 width → value_of (remainders value width) ≡ value
unfolding value_of remainders
value_of-remainders value zero h = omega (arith, h)
value_of-remainders value (suc width) h = omega (
  arith,
  index_of-symbol (value % 32) (omega arith),
  value_of-remainders (value / 32) width (omega (arith, h)),
)

-- `_encode_base32` loses nothing: a number below 32 to the power of the width is read back from the
-- text that is written for it.
pub decode_base32-encode_base32 :
    (value width : ℕ) → value < power32 width → decode_base32 (encode_base32 value width) ≡ value
unfolding decode_base32 encode_base32
decode_base32-encode_base32 value width h =
    rw
      (
        letters-join_chars (reverse (remainders value width)),
        reverse-reverse (remainders value width),
      )
      (value_of-remainders value width h)
