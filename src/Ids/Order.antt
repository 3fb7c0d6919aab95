-- ===== src/Ids/Order.antt =====
-- The order of ids and that of the times in which they are made.
use Prim.Native.Nat.{◌/◌, ◌%◌}
use Prim.Native.String.append
use Prim.Native.Char.{Char, code}
use mathlib.Core.List.{reverse, reverse-cons}
use babeltower.Prelude.{
  ℕ, zero, suc, ◌<◌, String, ◌<>◌, ◌≡◌, refl, ap, ◌∙◌, Bool, true, false, ◌&&◌, ◌||◌, List, [], ◌∷◌,
  ◌++◌, arith, nat_beq, ltb, Bool-cases, inl, inr,
}
use babeltower.Ids.{symbol, remainders, encode_base32, new_id}
use babeltower.Ids.RoundTrip.{letters, letters-join_chars, power32, all_below, all_below_lem}

-- The order of texts by the codes of their characters.
unfoldable pub chars_before : List Char → List Char → Bool
chars_before [] [] = false
chars_before [] (d ∷ ds) = true
chars_before (c ∷ cs) [] = false
chars_before (c ∷ cs) (d ∷ ds) =
    ltb (code c) (code d) || (nat_beq (code c) (code d) && chars_before cs ds)

unfoldable pub sorts_before : String → String → Bool
sorts_before s t = chars_before (letters s) (letters t)

-- Two lists of one length.
abbrev SameLength : List Char → List Char → Type 0
SameLength [] [] = Unit
SameLength [] (d ∷ ds) = ⊥
SameLength (c ∷ cs) [] = ⊥
SameLength (c ∷ cs) (d ∷ ds) = SameLength cs ds

before-append :
    (cs ds es fs : List Char)
    → SameLength cs ds
    → chars_before cs ds ≡ true
    → chars_before (cs ++ es) (ds ++ fs) ≡ true
unfolding chars_before
before-append [] [] es fs l h = cc
before-append [] (d ∷ ds) es fs l h = absurd l
before-append (c ∷ cs) [] es fs l h = absurd l
before-append (c ∷ cs) (d ∷ ds) es fs l h = ground (arith, before-append cs ds es fs l)

before_prefix :
    (cs : List Char) (es fs : List Char)
    → chars_before es fs ≡ true
    → chars_before (cs ++ es) (cs ++ fs) ≡ true
unfolding chars_before
before_prefix [] es fs h = h
before_prefix (c ∷ cs) es fs h = ground (arith, before_prefix cs es fs h)

SameLength-append :
    (cs ds : List Char) (c d : Char) → SameLength cs ds → SameLength (cs ++ c ∷ []) (ds ++ d ∷ [])
SameLength-append [] [] c d l = tt
SameLength-append [] (e ∷ ds) c d l = absurd l
SameLength-append (e ∷ cs) [] c d l = absurd l
SameLength-append (e ∷ cs) (f ∷ ds) c d l = SameLength-append cs ds c d l

one : (c d : Char) → ltb (code c) (code d) ≡ true → chars_before (c ∷ []) (d ∷ []) ≡ true
unfolding chars_before
one c d h = rw h refl

reverse-remainders :
    (v width : ℕ)
    → reverse (remainders v (suc width))
      ≡ reverse (remainders (v / 32) width) ++ symbol (v % 32) ∷ []
unfolding remainders
reverse-remainders v width = reverse-cons (symbol (v % 32)) (remainders (v / 32) width)

remainders-SameLength :
    (v u width : ℕ) → SameLength (reverse (remainders v width)) (reverse (remainders u width))
unfolding remainders
remainders-SameLength v u zero = tt
remainders-SameLength v u (suc width) =
    rw (reverse-remainders v width, reverse-remainders u width)
      (SameLength-append (reverse (remainders (v / 32) width)) (reverse (remainders (u / 32) width))
        (symbol (v % 32)) (symbol (u % 32)) (remainders-SameLength (v / 32) (u / 32) width))

symbol_mono : (d e : ℕ) → d < e → e < 32 → ltb (code (symbol d)) (code (symbol e)) ≡ true
unfolding symbol
symbol_mono d e h k =
    all_below_lem e (λ i. ltb (code (symbol i)) (code (symbol e))) d
      (all_below_lem 32 (λ j. all_below j (λ i. ltb (code (symbol i)) (code (symbol j)))) e refl k)
      h

remainders_mono :
    (v u width : ℕ)
    → v < u
    → u < power32 width
    → chars_before (reverse (remainders v width)) (reverse (remainders u width)) ≡ true
remainders_mono v u zero h k = absurd (omega (arith, h, k))
remainders_mono v u (suc width) h k =
    rw (reverse-remainders v width, reverse-remainders u width)
      (elim (Bool-cases (ltb (v / 32) (u / 32))) [
        | inl t ↦
            before-append (reverse (remainders (v / 32) width))
              (reverse (remainders (u / 32) width)) _ _
              (remainders-SameLength (v / 32) (u / 32) width)
              (remainders_mono (v / 32) (u / 32) width (ground (arith, t)) (omega (arith, k)))
        | inr t ↦
            let same : v / 32 ≡ u / 32 = ground (arith, t, h) in
            let last : ltb (code (symbol (v % 32))) (code (symbol (u % 32))) ≡ true =
              symbol_mono (v % 32) (u % 32) (omega (arith, same, h)) (omega arith) in
            rw same (
              before_prefix (reverse (remainders (u / 32) width)) (symbol (v % 32) ∷ [])
                (symbol (u % 32) ∷ []) (one (symbol (v % 32)) (symbol (u % 32)) last))
      ])

encode_base32_mono :
    (v u width : ℕ)
    → v < u
    → u < power32 width
    → SameLength (letters (encode_base32 v width)) (letters (encode_base32 u width))
      × (sorts_before (encode_base32 v width) (encode_base32 u width) ≡ true)
unfolding sorts_before encode_base32
encode_base32_mono v u width h k =
    rw
      (
        letters-join_chars (reverse (remainders v width)),
        letters-join_chars (reverse (remainders u width)),
      )
      (remainders-SameLength v u width, remainders_mono v u width h k)

letters-append : (s t : String) → letters (s <> t) ≡ letters s ++ letters t
letters-append String.[] t = ap letters (append.nil t)
letters-append (String.◌∷◌ c s) t =
    ap letters (append.cons c s t) ∙ ap (λ cs. c ∷ cs) (letters-append s t)

before_prefix-sorts :
    (p s t : String) → sorts_before s t ≡ true → sorts_before (p <> s) (p <> t) ≡ true
unfolding sorts_before
before_prefix-sorts p s t h =
    rw (letters-append p s, letters-append p t)
      (before_prefix (letters p) (letters s) (letters t) h)

before_rest-sorts :
    (s t x y : String)
    → SameLength (letters s) (letters t)
    → sorts_before s t ≡ true
    → sorts_before (s <> x) (t <> y) ≡ true
unfolding sorts_before
before_rest-sorts s t x y l h =
    rw (letters-append s x, letters-append t y)
      (before-append (letters s) (letters t) (letters x) (letters y) l h)

-- Ids of one kind sort by the millisecond in which they are made, whatever their random characters:
-- of two of them the id of the later millisecond is the text that sorts later, by the codes of
-- the characters, while ten characters have room for the time.
pub new_id_mono :
    (prefix : String) (now later : ℕ) (randomness other : List ℕ)
    → now / 1000 < later / 1000
    → later / 1000 < power32 10
    → sorts_before (new_id prefix now randomness) (new_id prefix later other) ≡ true
unfolding new_id
new_id_mono prefix now later randomness other h k =
    let r = encode_base32_mono (now / 1000) (later / 1000) 10 h k in
    before_prefix-sorts prefix _ _ (
      before_prefix-sorts "_" _ _ (
        before_rest-sorts (encode_base32 (now / 1000) 10) (encode_base32 (later / 1000) 10) _ _ r.0
          r.1))
