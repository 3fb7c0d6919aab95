-- ===== src/Lifecycle/Rows.antt =====
-- The lifecycle's relations on rows and tables compose, and the invariant follows them.
use babeltower.Prelude.{
  String, ◌≡◌, refl, ap, ◌∙◌, ◌≢◌, inl, true, false, List, [], ◌∷◌, ◌++◌, arith, All, string_eq,
  find, All-append,
}
use babeltower.Prelude.Evolves.{Evolves, Evolves-refl, Evolves-trans}
use babeltower.Models.{Db, Session, ConnectionRequest, request_status_eq}
use babeltower.Lifecycle.{
  here, Reach-trans, SessionFollows, IsNewSession, RequestFollows, IsNewRequest, is_accepted,
  IsLinked, AreDistinct, request_ids, Leads,
}

pub SessionFollows-refl : (s : Session) → SessionFollows s s
SessionFollows-refl s = record {
  id = refl;
  agent_a = refl;
  agent_b = refl;
  request = refl;
  status = here;
}

pub SessionFollows-trans :
    (s t u : Session) → SessionFollows s t → SessionFollows t u → SessionFollows s u
SessionFollows-trans s t u f g = record {
  id = g.id ∙ f.id;
  agent_a = g.agent_a ∙ f.agent_a;
  agent_b = g.agent_b ∙ f.agent_b;
  request = g.request ∙ f.request;
  status = Reach-trans f.status g.status;
}

pub IsNewSession-follows : (s t : Session) → IsNewSession s → SessionFollows s t → IsNewSession t
IsNewSession-follows s t n f = Reach-trans n f.status

pub RequestFollows-trans :
    (r q p : ConnectionRequest) → RequestFollows r q → RequestFollows q p → RequestFollows r p
RequestFollows-trans r q p f g = grind arith

pub IsNewRequest-follows :
    (r q : ConnectionRequest) → IsNewRequest r → RequestFollows r q → IsNewRequest q
IsNewRequest-follows r q n f = grind arith

pub Leads-refl : (db : Db) → Leads db db
Leads-refl db = record {
  sessions = Evolves-refl SessionFollows IsNewSession SessionFollows-refl db.sessions;
  requests = Evolves-refl RequestFollows IsNewRequest (λ r. inl refl) db.connection_requests;
}

pub Leads-trans : {a b c : Db} → Leads a b → Leads b c → Leads a c
Leads-trans {a} {b} {c} f g = record {
  sessions =
      Evolves-trans SessionFollows IsNewSession SessionFollows-trans IsNewSession-follows a.sessions
        b.sessions c.sessions f.sessions g.sessions;
  requests =
      Evolves-trans RequestFollows IsNewRequest RequestFollows-trans IsNewRequest-follows
        a.connection_requests b.connection_requests c.connection_requests f.requests g.requests;
}

-- A request that is accepted stays so.
pub is_accepted-Evolves :
    (id : String) (rs qs : List ConnectionRequest)
    → Evolves RequestFollows IsNewRequest rs qs
    → is_accepted rs id ≡ true
    → is_accepted qs id ≡ true
unfolding is_accepted find
is_accepted-Evolves id [] qs e h = cc
is_accepted-Evolves id (r ∷ rs) [] e h = absurd e
is_accepted-Evolves id (r ∷ rs) (q ∷ qs) e h = ground (arith, e.0, is_accepted-Evolves id rs qs e.1)

pub IsLinked-Evolves :
    (rs qs : List ConnectionRequest) (ss : List Session)
    → Evolves RequestFollows IsNewRequest rs qs
    → All (IsLinked rs) ss
    → All (IsLinked qs) ss
IsLinked-Evolves rs qs [] e h = tt
IsLinked-Evolves rs qs (s ∷ ss) e h =
    (is_accepted-Evolves s.connection_request_id rs qs e h.0, IsLinked-Evolves rs qs ss e h.1)

pub AreDistinct-append :
    (is : List String) (j : String)
    → AreDistinct is
    → All (λ i. j ≢ i) is
    → AreDistinct (is ++ j ∷ [])
AreDistinct-append [] j d h = (tt, tt)
AreDistinct-append (i ∷ is) j d h =
    (All-append (λ k. k ≢ i) is (j ∷ []) d.0 (h.0, tt), AreDistinct-append is j d.1 h.1)

-- A request that is not accepted has no session.
pub not_linked :
    (rs : List ConnectionRequest) (id : String) (ss : List Session)
    → is_accepted rs id ≡ false
    → All (IsLinked rs) ss
    → All (λ i. id ≢ i) (request_ids ss)
not_linked rs id [] h l = tt
not_linked rs id (s ∷ ss) h l = (λ e. cc (h, l.0, ap (is_accepted rs) e), not_linked rs id ss h l.1)
