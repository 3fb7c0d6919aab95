-- ===== src/Exec.antt =====
-- A coroutine of the server: it changes the world and returns a value or raises. What was
-- committed before a raise stays; the open transaction is rolled back at the end of the request.
pub mod Keeps
use babeltower.Prelude.{ℕ, String, Option, none, some, List, [], ◌∷◌, Bool, true, false}
use babeltower.Models.{Db}
use babeltower.World.{World, Metrics}

-- `http` is FastAPI's HTTPException; the next two and
-- `integrity_error` are SQLAlchemy's, `http_status_error` is httpx's; the others are Python's.
pub data Exn : Type 0 where
  http : ℕ → String → Exn
  multiple_results_found no_result_found : Exn
  integrity_error http_status_error : Exn
  runtime_error websocket_disconnect attribute_error type_error key_error value_error
        cancelled_error :
      Exn

pub data Result {ℓ} (A : Type ℓ) : Type ℓ where
  ok : A → Result A
  err : Exn → Result A

-- A handler returns its model, or a JSONResponse with a status code and an error code.
pub data Response {ℓ} (A : Type ℓ) : Type ℓ where
  reply : A → Response A
  error_response : ℕ → String → Response A

abbrev pub Exec : Type 0 → Type 0
Exec A = World → Result A × World

module _ {A : Type 0} where
  abbrev pub pure : A → Exec A
  pure a w = (ok a, w)

  abbrev pub raise : Exn → Exec A
  raise e w = (err e, w)

  -- A query in the request's transaction; the session flushes before it, so it sees `work`.
  abbrev pub query : (Db → A) → Exec A
  query f w = (ok (f w.work), w)

module _ {A B : Type 0} where
  abbrev pub continue : Result A → (A → Exec B) → Exec B
  continue (ok a) f w = f a w
  continue (err e) f w = (err e, w)

  infixl 10 ◌>>=◌ ◌>>◌
  abbrev pub ◌>>=◌ : Exec A → (A → Exec B) → Exec B
  ◌>>=◌ m f w = continue (m w).0 f (m w).1

  abbrev pub ◌>>◌ : Exec A → Exec B → Exec B
  ◌>>◌ m n w = continue (m w).0 (λ _. n) (m w).1

-- A statement, or the flush of changed objects.
abbrev pub execute : (Db → Db) → Exec (Unit {0})
execute f w = (ok tt, record w { work = f w.work })

abbrev pub commit : Exec (Unit {0})
commit w = (ok tt, record w { store = w.work })

abbrev pub on_metrics : (Metrics → Metrics) → Exec (Unit {0})
on_metrics f w = (ok tt, record w { metrics = f w.metrics })

-- `Result.scalar_one_or_none()`
unfoldable pub scalar_one_or_none : {A : Type 0} → List A → Exec (Option A)
scalar_one_or_none [] = pure none
scalar_one_or_none (x ∷ []) = pure (some x)
scalar_one_or_none (x ∷ y ∷ rest) = raise multiple_results_found

-- `Result.scalar_one()`
unfoldable pub scalar_one : {A : Type 0} → List A → Exec A
scalar_one [] = raise no_result_found
scalar_one (x ∷ []) = pure x
scalar_one (x ∷ y ∷ rest) = raise multiple_results_found

abbrev pub when : Bool → Exec (Unit {0}) → Exec (Unit {0})
when true m = m
when false m = pure tt

-- One request: a session of its own, closed at the end.
abbrev pub begin : World → World
begin w = record w { work = w.store }

abbrev pub run : {A : Type 0} → Exec A → World → Result A × World
run m w = ((m (begin w)).0, begin (m (begin w)).1)
