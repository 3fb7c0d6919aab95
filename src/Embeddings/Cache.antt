-- ===== src/Embeddings/Cache.antt =====
-- The cache of embeddings, src/babeltower/embeddings.py, and a second call for the same text.
use babeltower.Prelude.{
  ℕ, ◌+◌, ◌<◌, String, ◌≡◌, refl, Option, none, some, List, arith, nat_eq, string_eq, lookup-insert,
  ◌∙◌,
}
use text.Mathlib.TextEquality.{eq_iff}
use babeltower.Models.{seconds}
use babeltower.World.{World, Json, Entry}
use babeltower.Exec.{Result, ok, err}
use babeltower.Crypto.{CryptoLib}
use babeltower.Redis.{get_live, set_live, redis_setex}
use babeltower.Embeddings.Retry.{first_good, answers, kept, chosen, embed_intent-chosen}
use babeltower.Embeddings.{
  embedding_cache_ttl, cached_in, cache_set, cache_key, embed_intent, intent_embedding_text,
}

-- What was written is read until it expires.
pub get_live-set_live :
    (key : String) (ttl : ℕ) (value : Json) (now later : ℕ) (entries : List (String × Entry))
    → later < now + seconds ttl
    → get_live key later (set_live key ttl value now entries) ≡ some value
unfolding get_live set_live
get_live-set_live key ttl value now later entries h =
    rw (lookup-insert key key (record { value = value; expires_at = now + seconds ttl }) entries)
      (ground (arith, h, (eq_iff key key).1 refl))

-- What is kept is found until it expires.
kept-cached :
    (key : String) (now later : ℕ) (r : Result (List String)) (w : World)
    (entries : List (String × Entry)) (e : Json)
    → w.redis ≡ some entries
    → later < now + seconds embedding_cache_ttl
    → (kept key now r w).0 ≡ ok e
    → cached_in key later (kept key now r w).1.redis ≡ some e
unfolding cache_set redis_setex
kept-cached key now later (err x) w entries e r l h = cc
kept-cached key now later (ok ns) w entries e r l h =
    let same : Json.numbers ns ≡ e = cc in
    rw (r, ← same) (get_live-set_live key embedding_cache_ttl (Json.numbers ns) now later entries l)

module _ (lib : CryptoLib) (first second : String → String → ℕ → Result (List String)) where
  chosen-cached :
      (key text input_type : String) (later : ℕ) (o : Option Json) (e : Json) (v : World)
      → o ≡ some e
      → chosen lib second key text input_type later o v ≡ (ok e, v)
  chosen-cached key text input_type later none e v h = cc
  chosen-cached key text input_type later (some c) e v h = let same : c ≡ e = cc in rw same refl

  -- With Redis, an embedding that a call had from Voyage is given again within an hour, for the same
  -- text and kind of input, whatever Voyage would answer then, and the second call changes nothing.
  pub embed_intent_again :
      (seeking offering constraints input_type : String) (now later : ℕ) (w : World)
      (entries : List (String × Entry)) (e : Json)
      → w.redis ≡ some entries
      → get_live
          (cache_key lib (intent_embedding_text seeking offering constraints) input_type)
          now
          entries
        ≡ none
      → (embed_intent lib first seeking offering constraints input_type now w).0 ≡ ok e
      → later < now + seconds embedding_cache_ttl
      → embed_intent lib second seeking offering constraints input_type later
          (embed_intent lib first seeking offering constraints input_type now w).1
        ≡ (ok e, (embed_intent lib first seeking offering constraints input_type now w).1)
  embed_intent_again seeking offering constraints input_type now later w entries e r n h l =
      let text = intent_embedding_text seeking offering constraints in
      let key = cache_key lib text input_type in
      let answer = first_good (answers lib first text input_type 3 0) in
      let made : embed_intent lib first seeking offering constraints input_type now w
          ≡ kept key now answer w =
        rw (embed_intent-chosen lib first seeking offering constraints input_type now w, r, n)
          refl in
      let v = (embed_intent lib first seeking offering constraints input_type now w).1 in
      let found : cached_in key later v.redis ≡ some e =
        rw made (kept-cached key now later answer w entries e r l (rw (← made) h)) in
      embed_intent-chosen lib second seeking offering constraints input_type later v
      ∙ chosen-cached key text input_type later _ e v found
