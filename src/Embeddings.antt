-- ===== src/Embeddings.antt =====
-- src/babeltower/embeddings.py: the text that is embedded, the cache in Redis and the three attempts.
-- The Voyage client is a parameter: what it gives for a text at each attempt, an error included. A
-- number of an embedding is its decimal text. The pauses between attempts change nothing.
pub mod Retry
pub mod Cache
use Prim.Native.Char.{Char, code}
use mathlib.Core.List.{reverse}
use babeltower.Prelude.{
  ℕ, zero, suc, ◌+◌, String, ◌<>◌, Option, none, some, Bool, true, false, ◌&&◌, ◌||◌, List, [], ◌∷◌,
  if◌then◌else◌, ◌==◌, ◌!=◌, nat_eq, leb, length, map,
}
use babeltower.World.{World, Json, Entry}
use babeltower.Exec.{
  Exec, Result, ok, err, runtime_error, value_error, cancelled_error, pure, raise, ◌>>=◌, ◌>>◌,
}
use babeltower.Crypto.{CryptoLib}
use babeltower.Redis.{get_live, redis_setex}

abbrev pub embedding_dimensions : ℕ
embedding_dimensions = 1024

abbrev pub embedding_cache_ttl : ℕ
embedding_cache_ttl = 3600

-- `str.isspace`
abbrev pub is_space : ℕ → Bool
is_space c =
    (leb 9 c && leb c 13)
    || ((leb 28 c && leb c 32)
        || (c == 133
            || (c == 160
                || (c == 5760
                    || ((leb 8192 c && leb c 8202)
                        || (c == 8232
                            || (c == 8233 || (c == 8239 || (c == 8287 || c == 12288)))))))))

abbrev pub strip_left : List Char → List Char
strip_left [] = []
strip_left (c ∷ cs) = let rest = strip_left cs in if is_space (code c) then rest else c ∷ cs

abbrev chars_of : String → List Char
chars_of String.[] = []
chars_of (String.◌∷◌ c s) = c ∷ chars_of s

abbrev text_of : List Char → String
text_of [] = ""
text_of (c ∷ cs) = String.◌∷◌ c (text_of cs)

-- `text.strip()`
unfoldable pub strip : String → String
strip s = text_of (reverse (strip_left (reverse (strip_left (chars_of s)))))

unfoldable pub intent_embedding_text : String → String → String → String
unfolding strip
intent_embedding_text seeking offering constraints =
    strip (seeking <> "\n\n" <> offering <> "\n\n" <> constraints)

abbrev pub cached_in : String → ℕ → Option (List (String × Entry)) → Option Json
cached_in key now none = none
cached_in key now (some entries) = get_live key now entries

-- `_redis_get`: without Redis nothing is cached.
unfoldable pub cache_get : String → ℕ → Exec (Option Json)
unfolding get_live
cache_get key now w = (ok (cached_in key now w.redis), w)

-- `_redis_set`
unfoldable pub cache_set : String → List String → ℕ → Exec (Unit {0})
cache_set key embedding now w = elim w.redis [
  | none ↦ (ok tt, w)
  | some entries ↦ redis_setex key embedding_cache_ttl (Json.numbers embedding) now w
]

-- `_cache_key`
unfoldable pub cache_key : CryptoLib → String → String → String
cache_key lib text input_type = "emb:" <> input_type <> ":" <> lib.sha256_hex text

abbrev pub comma_joined : List String → String
comma_joined [] = ""
comma_joined (x ∷ []) = x
comma_joined (x ∷ y ∷ rest) = x <> "," <> comma_joined (y ∷ rest)

-- Iterating over a dict gives its keys.
abbrev pub iterated : Json → List String
iterated (Json.dict o) = map (λ e. e.0) o
iterated (Json.numbers ns) = ns

-- The text of a vector that a column of PostgreSQL holds.
unfoldable pub vector_text : Json → String
vector_text embedding = "[" <> comma_joined (iterated embedding) <> "]"

module _ (lib : CryptoLib) (voyage : String → String → ℕ → Result (List String)) where
  -- The body of the loop, without its handler, once Voyage has answered.
  unfoldable pub attempt : String → ℕ → Result (List String) → Exec Json
  attempt key now (err e) = raise e
  attempt key now (ok embedding) =
      if length embedding != embedding_dimensions
      then raise value_error
      else (do cache_set key embedding now; pure (Json.numbers embedding))

  -- `except Exception`: a cancellation is none.
  unfoldable pub or_again : Exec Json → Result Json × World → Result Json × World
  or_again again (ok embedding, w) = (ok embedding, w)
  or_again again (err cancelled_error, w) = (err cancelled_error, w)
  or_again again (err e, w) = again w

  -- `for attempt in range(3)`, with the attempts that are left and the number of the next one.
  unfoldable pub attempts : ℕ → ℕ → String → String → String → ℕ → Exec Json
  unfolding attempt or_again
  attempts zero n key text input_type now w = (err runtime_error, w)
  attempts (suc left) n key text input_type now w =
      or_again (attempts left (n + 1) key text input_type now)
        (attempt key now (voyage text input_type n) w)

  unfoldable pub with_cached : String → String → String → ℕ → Option Json → Exec Json
  with_cached key text input_type now none = attempts 3 0 key text input_type now
  with_cached key text input_type now (some cached) = pure cached

  unfoldable pub embed_intent : String → String → String → String → ℕ → Exec Json
  unfolding cache_key
  embed_intent seeking offering constraints input_type now = do
    let text = intent_embedding_text seeking offering constraints
    let key = cache_key lib text input_type
    cached ← cache_get key now
    with_cached key text input_type now cached
