-- ===== src/Lifecycle/Sound.antt =====
-- A call keeps the lifecycle's invariant, and the database that it leaves follows the one it found.
-- The rules are for the results of a call: `After w p` says this of the result `p` of a call made
-- in the world `w`.
use babeltower.Prelude.{◌≡◌, refl, ◌∙◌, Bool, true, false, if◌then◌else◌}
use babeltower.World.{World}
use babeltower.Exec.{Exec, Result, ok, err, continue}
use babeltower.Lifecycle.{IsGood, Leads}
use babeltower.Lifecycle.Steps.{Steps}
use babeltower.Lifecycle.Rows.{Leads-refl, Leads-trans}

-- The stored database is good, and so is what the open transaction has made of it.
pub record Fits (w : World) : Type 0 where
  pub store : IsGood w.store
  pub work : IsGood w.work
  pub leads : Leads w.store w.work

pub record After {A : Type 0} (w : World) (p : Result A × World) : Type 0 where
  pub fits : Fits p.1
  pub leads : Leads w.store p.1.store

-- The databases are as they were.
pub record SameDb (w v : World) : Type 0 where
  pub store : v.store ≡ w.store
  pub work : v.work ≡ w.work

pub SameDb-refl : (w : World) → SameDb w w
SameDb-refl w = record { store = refl; work = refl }

pub SameDb-trans : {u v w : World} → SameDb u v → SameDb v w → SameDb u w
SameDb-trans f g = record { store = g.store ∙ f.store; work = g.work ∙ f.work }

pub SameDb-continue :
    {A B : Type 0} {w : World} (r : Result A) (k : A → Exec B) (v : World)
    → SameDb w v
    → ((a : A) → SameDb v (k a v).1)
    → SameDb w (continue r k v).1
SameDb-continue (ok a) k v f h = SameDb-trans f (h a)
SameDb-continue (err e) k v f h = f

pub Fits-same : {v w : World} → SameDb w v → Fits w → Fits v
Fits-same {v} {w} s f = record {
  store = rw s.store f.store;
  work = rw s.work f.work;
  leads = rw (s.store, s.work) f.leads;
}

module _ {A : Type 0} where
  pub After-same : {w v : World} (r : Result A) → SameDb w v → Fits w → After w (r, v)
  After-same {w} {v} r s f = record {
    fits = Fits-same s f;
    leads = rw s.store (Leads-refl w.store);
  }

  pub After-stay : {w : World} (r : Result A) → Fits w → After w (r, w)
  After-stay {w} r f = After-same r (SameDb-refl w) f

  pub After-trans :
      {w v : World} (p : Result A × World) → Leads w.store v.store → After v p → After w p
  After-trans p l a = record { fits = a.fits; leads = Leads-trans l a.leads }

  pub After-if :
      (w : World) (b : Bool) (p q : Result A × World)
      → (b ≡ true → After w p)
      → (b ≡ false → After w q)
      → After w (if b then p else q)
  After-if w true p q f g = f refl
  After-if w false p q f g = g refl

  pub After-if_run :
      (w v : World) (b : Bool) (m n : Exec A)
      → (b ≡ true → After w (m v))
      → (b ≡ false → After w (n v))
      → After w ((if b then m else n) v)
  After-if_run w v true m n f g = f refl
  After-if_run w v false m n f g = g refl

-- The next part of a call starts from the world that the first part left.
pub After-continue :
    {A B : Type 0} {w : World} (r : Result A) (k : A → Exec B) (v : World)
    → After w (r, v)
    → ((a : A) → r ≡ ok a → Fits v → After v (k a v))
    → After w (continue r k v)
After-continue (ok a) k v f h = After-trans (k a v) f.leads (h a refl f.fits)
After-continue (err e) k v f h = record { fits = f.fits; leads = f.leads }

pub After-bind :
    {A B : Type 0} (m : Exec A) (k : A → Exec B) (w : World)
    → After w (m w)
    → ((a : A) (v : World) → Fits v → After v (k a v))
    → After w (continue (m w).0 k (m w).1)
After-bind m k w f h = After-continue (m w).0 k (m w).1 f (λ a _ g. h a (m w).1 g)

-- A transaction that changes the database and commits.
pub After-commit :
    {A : Type 0} {w v : World} (r : Result A)
    → v.store ≡ v.work
    → Fits w
    → Steps w.work v.work
    → After w (r, v)
After-commit {v = v} r e f s = record {
  fits = record {
    store = rw e (s.good f.work);
    work = s.good f.work;
    leads = rw e (Leads-refl v.work);
  };
  leads = rw e (Leads-trans f.leads (s.leads f.work));
}

-- A change that is not committed yet.
pub After-execute :
    {A : Type 0} {w v : World} (r : Result A)
    → v.store ≡ w.store
    → Fits w
    → Steps w.work v.work
    → After w (r, v)
After-execute {w = w} {v = v} r e f s = record {
  fits = record {
    store = rw e f.store;
    work = s.good f.work;
    leads = rw e (Leads-trans f.leads (s.leads f.work));
  };
  leads = rw e (Leads-refl w.store);
}

-- A transaction of the relay.
pub After-store :
    {A : Type 0} {w v : World} (r : Result A)
    → v.store ≡ v.work
    → Fits w
    → Steps w.store v.work
    → After w (r, v)
After-store {v = v} r e f s = record {
  fits = record {
    store = rw e (s.good f.store);
    work = s.good f.store;
    leads = rw e (Leads-refl v.work);
  };
  leads = rw e (s.leads f.store);
}

-- A commit in the middle of a call.
pub After-committed :
    {A : Type 0} {w : World} (p : Result A × World)
    → Fits w
    → (Fits (record w { store = w.work }) → After (record w { store = w.work }) p)
    → After w p
After-committed {w = w} p f h =
    After-trans p f.leads (h (record { store = f.work; work = f.work; leads = Leads-refl w.work }))
