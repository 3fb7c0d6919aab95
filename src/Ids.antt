-- ===== src/Ids.antt =====
-- The ids of src/babeltower/models.py: `_encode_base32` and `new_id`.
pub mod RoundTrip
pub mod Order
use Prim.Native.Nat.{◌/◌, ◌%◌}
use Prim.Native.Char.{Char}
use mathlib.Core.List.{reverse}
use babeltower.Prelude.{ℕ, zero, suc, String, ◌<>◌, List, [], ◌∷◌, map}

-- `_CROCKFORD`
abbrev pub crockford : List Char
crockford =
    "0" ∷ "1" ∷ "2" ∷ "3" ∷ "4" ∷ "5" ∷ "6" ∷ "7" ∷ "8" ∷ "9" ∷ "A" ∷ "B" ∷ "C" ∷ "D" ∷ "E" ∷ "F"
    ∷ "G" ∷ "H" ∷ "J" ∷ "K" ∷ "M" ∷ "N" ∷ "P" ∷ "Q" ∷ "R" ∷ "S" ∷ "T" ∷ "V" ∷ "W" ∷ "X" ∷ "Y" ∷ "Z"
    ∷ []

-- `chars[n]`; the indices of the program are below 32.
abbrev pub nth : List Char → ℕ → Char
nth [] n = "0"
nth (c ∷ cs) zero = c
nth (c ∷ cs) (suc n) = nth cs n

unfoldable pub symbol : ℕ → Char
symbol n = nth crockford n

-- `"".join_chars(chars)`
abbrev pub join_chars : List Char → String
join_chars [] = ""
join_chars (c ∷ cs) = String.◌∷◌ c (join_chars cs)

-- The loop of `_encode_base32`: one remainder for each round.
unfoldable pub remainders : ℕ → ℕ → List Char
unfolding symbol
remainders value zero = []
remainders value (suc width) = symbol (value % 32) ∷ remainders (value / 32) width

unfoldable pub encode_base32 : ℕ → ℕ → String
unfolding remainders
encode_base32 value width = join_chars (reverse (remainders value width))

-- `now` is in microseconds; `randomness` are the indices of the 16 choices.
unfoldable pub new_id : String → ℕ → List ℕ → String
unfolding encode_base32 symbol
new_id prefix now randomness =
    prefix <> "_" <> encode_base32 (now / 1000) 10 <> join_chars (map symbol randomness)
