-- ===== src/Exec/Keeps.antt =====
-- A property of the database, as it is committed and as the open transaction sees it, through the
-- parts of a coroutine.
use babeltower.Prelude.{◌≡◌, refl, Bool, true, false, if◌then◌else◌}
use babeltower.Models.{Db}
use babeltower.World.{World}
use babeltower.Exec.{Exec, Result, ok, err, continue, ◌>>=◌}

module _ (P : Db → Type 0) where
  abbrev pub Keeps : {A : Type 0} → Result A × World → Type 0
  Keeps p = P p.1.store × P p.1.work

  pub continue-Keeps :
      {A B : Type 0} (r : Result A) (k : A → Exec B) (v : World)
      → P v.store
      → P v.work
      → ((a : A) → Keeps (k a v))
      → Keeps (continue r k v)
  continue-Keeps (ok a) k v g h f = f a
  continue-Keeps (err e) k v g h f = (g, h)

  pub bind-Keeps :
      {A B : Type 0} (m : Exec A) (k : A → Exec B) (w : World)
      → Keeps (m w)
      → ((a : A) (v : World) → P v.store → P v.work → Keeps (k a v))
      → Keeps ((m >>= k) w)
  bind-Keeps m k w h f = continue-Keeps (m w).0 k (m w).1 h.0 h.1 (λ a. f a (m w).1 h.0 h.1)

  pub if-Keeps :
      {A : Type 0} (b : Bool) (m n : Exec A) (w : World)
      → Keeps (m w)
      → (b ≡ false → Keeps (n w))
      → Keeps ((if b then m else n) w)
  if-Keeps true m n w f g = f
  if-Keeps false m n w f g = g refl
