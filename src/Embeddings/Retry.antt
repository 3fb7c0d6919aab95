-- ===== src/Embeddings/Retry.antt =====
-- The attempts of `embed_intent` as a choice among three answers.
use babeltower.Prelude.{
  ℕ, zero, suc, ◌+◌, String, ◌≡◌, refl, Option, none, some, List, [], ◌∷◌, if◌then◌else◌, ◌==◌,
  nat_eq, length, arith, Bool-cases, inl, inr,
}
use babeltower.World.{World, Json}
use babeltower.Exec.{
  Exec, Result, ok, err, http, multiple_results_found, no_result_found, integrity_error,
  http_status_error, runtime_error, websocket_disconnect, attribute_error, type_error, key_error,
  value_error, cancelled_error,
}
use babeltower.Crypto.{CryptoLib}
use babeltower.Embeddings.{
  embedding_dimensions, cached_in, cache_get, cache_set, cache_key, attempt, or_again, attempts,
  with_cached, embed_intent, intent_embedding_text,
}
use babeltower.Redis.{redis_setex}

-- The first answer that is an embedding of the right size, among the answers in their order; a
-- cancellation ends the search.
abbrev pub first_good : List (Result (List String)) → Result (List String)
first_good [] = err runtime_error
first_good (ok e ∷ rest) =
    let later = first_good rest in if length e == embedding_dimensions then ok e else later
first_good (err cancelled_error ∷ rest) = err cancelled_error
first_good (err x ∷ rest) = first_good rest

-- The answer is cached, where there is Redis, and given back.
abbrev pub kept : String → ℕ → Result (List String) → World → Result Json × World
kept key now (ok e) w = (ok (Json.numbers e), (cache_set key e now w).1)
kept key now (err x) w = (err x, w)

cache_set-ok :
    (key : String) (e : List String) (now : ℕ) (w : World) → (cache_set key e now w).0 ≡ ok tt
unfolding cache_set redis_setex
cache_set-ok key e now w = ground arith

-- The database stays as it is.
abbrev pub LeavesDb : {A : Type 0} → World → Result A × World → Type 0
LeavesDb w p = (p.1.store ≡ w.store) × (p.1.work ≡ w.work)

kept-LeavesDb :
    (key : String) (now : ℕ) (r : Result (List String)) (w : World) → LeavesDb w (kept key now r w)
unfolding cache_set redis_setex
kept-LeavesDb key now (err e) w = (refl, refl)
kept-LeavesDb key now (ok ns) w = ground arith

module _ (lib : CryptoLib) (voyage : String → String → ℕ → Result (List String)) where
  abbrev pub answers : String → String → ℕ → ℕ → List (Result (List String))
  answers text input_type zero n = []
  answers text input_type (suc left) n =
      voyage text input_type n ∷ answers text input_type left (n + 1)

  -- One round: an answer that is good ends the loop, another leads to the rest.
  attempt-first_good :
      (key : String) (now : ℕ) (r : Result (List String)) (rest : List (Result (List String)))
      (again : Exec Json) (w : World)
      → again w ≡ kept key now (first_good rest) w
      → or_again lib voyage again (attempt lib voyage key now r w)
        ≡ kept key now (first_good (r ∷ rest)) w
  unfolding attempt or_again
  attempt-first_good key now (ok e) rest again w h =
      elim (Bool-cases (length e == embedding_dimensions)) [
        | inl t ↦ rw (t, cache_set-ok key e now w) refl
        | inr t ↦ rw t h
      ]
  attempt-first_good key now (err cancelled_error) rest again w h = refl
  attempt-first_good key now (err (http n t)) rest again w h = h
  attempt-first_good key now (err multiple_results_found) rest again w h = h
  attempt-first_good key now (err no_result_found) rest again w h = h
  attempt-first_good key now (err integrity_error) rest again w h = h
  attempt-first_good key now (err http_status_error) rest again w h = h
  attempt-first_good key now (err runtime_error) rest again w h = h
  attempt-first_good key now (err websocket_disconnect) rest again w h = h
  attempt-first_good key now (err attribute_error) rest again w h = h
  attempt-first_good key now (err type_error) rest again w h = h
  attempt-first_good key now (err key_error) rest again w h = h
  attempt-first_good key now (err value_error) rest again w h = h

  attempts-first_good :
      (left n : ℕ) (key text input_type : String) (now : ℕ) (w : World)
      → attempts lib voyage left n key text input_type now w
        ≡ kept key now (first_good (answers text input_type left n)) w
  unfolding attempts
  attempts-first_good zero n key text input_type now w = refl
  attempts-first_good (suc left) n key text input_type now w =
      attempt-first_good key now (voyage text input_type n) (answers text input_type left (n + 1))
        (attempts lib voyage left (n + 1) key text input_type now) w
        (attempts-first_good left (n + 1) key text input_type now w)

  -- The reference: what is cached, or else the first good of three answers, which is then cached.
  abbrev pub chosen : String → String → String → ℕ → Option Json → World → Result Json × World
  chosen key text input_type now (some c) w = (ok c, w)
  chosen key text input_type now none w = kept key now (first_good (answers text input_type 3 0)) w

  with_cached-chosen :
      (key text input_type : String) (now : ℕ) (o : Option Json) (w : World)
      → with_cached lib voyage key text input_type now o w ≡ chosen key text input_type now o w
  unfolding with_cached
  with_cached-chosen key text input_type now none w =
      attempts-first_good 3 0 key text input_type now w
  with_cached-chosen key text input_type now (some c) w = refl

  -- `embed_intent` gives what is cached for the text and the kind of input, or else the first of three
  -- answers of Voyage that is a vector of 1024 numbers, which it caches where there is Redis; it
  -- raises RuntimeError where none of the three is good, and passes a cancellation on.
  pub embed_intent-chosen :
      (seeking offering constraints input_type : String) (now : ℕ) (w : World)
      → embed_intent lib voyage seeking offering constraints input_type now w ≡ (
          let text = intent_embedding_text seeking offering constraints in
          let key = cache_key lib text input_type in
          chosen key text input_type now (cached_in key now w.redis) w)
  unfolding embed_intent cache_get
  embed_intent-chosen seeking offering constraints input_type now w =
      let text = intent_embedding_text seeking offering constraints in
      let key = cache_key lib text input_type in
      with_cached-chosen key text input_type now (cached_in key now w.redis) w

  chosen-LeavesDb :
      (key text input_type : String) (now : ℕ) (o : Option Json) (w : World)
      → LeavesDb w (chosen key text input_type now o w)
  chosen-LeavesDb key text input_type now none w = kept-LeavesDb key now _ w
  chosen-LeavesDb key text input_type now (some c) w = (refl, refl)

  pub embed_intent-LeavesDb :
      (seeking offering constraints input_type : String) (now : ℕ) (w : World)
      → LeavesDb w (embed_intent lib voyage seeking offering constraints input_type now w)
  embed_intent-LeavesDb seeking offering constraints input_type now w =
      let text = intent_embedding_text seeking offering constraints in
      let key = cache_key lib text input_type in
      rw (embed_intent-chosen seeking offering constraints input_type now w)
        (chosen-LeavesDb key text input_type now (cached_in key now w.redis) w)
