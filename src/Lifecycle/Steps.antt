-- ===== src/Lifecycle/Steps.antt =====
-- Steps of the database that keep the lifecycle's invariant, one rule for each kind of statement.
use babeltower.Prelude.{
  String, ◌≡◌, refl, inl, some, Bool, true, false, List, [], ◌∷◌, ◌++◌, All, string_eq,
  update_where, map-update_row, map-update_where, All-append, All-update, All-update_row,
}
use mathlib.Core.List.{map-append}
use babeltower.Prelude.Evolves.{
  Evolves, Evolves-append_new, Evolves-update_where, Evolves-update_row,
}
use babeltower.Models.{Db, Session, ConnectionRequest}
use babeltower.Relay.Persist.{on_session, find_session}
use babeltower.Connections.Respond.{on_request, find_request}
use babeltower.Lifecycle.{
  SessionFollows, IsNewSession, RequestFollows, IsNewRequest, IsShaped, is_accepted, IsLinked,
  request_ids, IsGood, Leads,
}
use babeltower.Lifecycle.Rows.{
  SessionFollows-refl, Leads-refl, Leads-trans, IsLinked-Evolves, AreDistinct-append, not_linked,
}

pub record Steps (a b : Db) : Type 0 where
  pub good : IsGood a → IsGood b
  pub leads : IsGood a → Leads a b

pub Steps-refl : (db : Db) → Steps db db
Steps-refl db = record { good = λ g. g; leads = λ g. Leads-refl db }

pub Steps-trans : {a b c : Db} → Steps a b → Steps b c → Steps a c
Steps-trans f h = record {
  good = λ g. h.good (f.good g);
  leads = λ g. Leads-trans (f.leads g) (h.leads (f.good g));
}

-- A statement on the other tables.
pub Steps-other :
    {a b : Db} → b.sessions ≡ a.sessions → b.connection_requests ≡ a.connection_requests → Steps a b
Steps-other {a} {b} s r = record {
  good = λ g. record {
    shaped = rw s g.shaped;
    linked = rw (s, r) g.linked;
    distinct = rw s g.distinct;
  };
  leads = λ g. record {
    sessions = rw s (Leads-refl a).sessions;
    requests = rw r (Leads-refl a).requests;
  };
}

-- A new table of sessions, of the same requests.
pub Steps-sessions :
    (db : Db) (ss : List Session)
    → (IsGood db → All IsShaped ss)
    → (IsGood db → All (IsLinked db.connection_requests) ss)
    → request_ids ss ≡ request_ids db.sessions
    → Evolves SessionFollows IsNewSession db.sessions ss
    → Steps db (record db { sessions = ss })
Steps-sessions db ss sh li e ev = record {
  good = λ g. record { shaped = sh g; linked = li g; distinct = rw e g.distinct };
  leads = λ g. record { sessions = ev; requests = (Leads-refl db).requests };
}

-- One session changes, of which the status and the columns are known.
pub Steps-on_session :
    (session_id : String) (f : Session → Session) (db : Db)
    → ((s : Session) → (f s).connection_request_id ≡ s.connection_request_id)
    → ((s : Session) → find_session session_id db ≡ some s → IsShaped s → IsShaped (f s))
    → ((s : Session) → find_session session_id db ≡ some s → SessionFollows s (f s))
    → Steps db (on_session session_id f db)
Steps-on_session session_id f db same shape follows =
    Steps-sessions db _ (λ g. All-update_row IsShaped _ f db.sessions shape g.shaped)
      (λ g.
        All-update_row (IsLinked db.connection_requests) _ f db.sessions (λ s e l. rw (same s) l)
          g.linked)
      (map-update_row (λ s. s.connection_request_id) _ f same db.sessions)
      (Evolves-update_row SessionFollows IsNewSession SessionFollows-refl _ f db.sessions follows)

-- All sessions that pass a test change.
pub Steps-update_sessions :
    (p : Session → Bool) (f : Session → Session) (db : Db)
    → ((s : Session) → (f s).connection_request_id ≡ s.connection_request_id)
    → ((s : Session) → p s ≡ true → IsShaped s → IsShaped (f s))
    → ((s : Session) → p s ≡ true → SessionFollows s (f s))
    → Steps db (record db { sessions = update_where p f db.sessions })
Steps-update_sessions p f db same shape follows =
    Steps-sessions db _ (λ g. All-update IsShaped p f db.sessions shape g.shaped)
      (λ g.
        All-update (IsLinked db.connection_requests) p f db.sessions (λ s e l. rw (same s) l)
          g.linked)
      (map-update_where (λ s. s.connection_request_id) p f same db.sessions)
      (Evolves-update_where SessionFollows IsNewSession SessionFollows-refl p f db.sessions follows)

-- A new table of requests.
pub Steps-requests :
    (db : Db) (rs : List ConnectionRequest)
    → Evolves RequestFollows IsNewRequest db.connection_requests rs
    → Steps db (record db { connection_requests = rs })
Steps-requests db rs ev = record {
  good = λ g. record {
    shaped = g.shaped;
    linked = IsLinked-Evolves db.connection_requests rs db.sessions ev g.linked;
    distinct = g.distinct;
  };
  leads = λ g. record { sessions = (Leads-refl db).sessions; requests = ev };
}

pub Steps-on_request :
    (id : String) (f : ConnectionRequest → ConnectionRequest) (db : Db)
    → ((r : ConnectionRequest) → find_request id db ≡ some r → RequestFollows r (f r))
    → Steps db (on_request id f db)
Steps-on_request id f db h =
    Steps-requests db _
      (Evolves-update_row RequestFollows IsNewRequest (λ r. inl refl) _ f db.connection_requests h)

pub Steps-update_requests :
    (p : ConnectionRequest → Bool) (f : ConnectionRequest → ConnectionRequest) (db : Db)
    → ((r : ConnectionRequest) → p r ≡ true → RequestFollows r (f r))
    → Steps db (record db { connection_requests = update_where p f db.connection_requests })
Steps-update_requests p f db h =
    Steps-requests db _ (
      Evolves-update_where RequestFollows IsNewRequest (λ r. inl refl) p f db.connection_requests h)

pub Steps-add_request :
    (r : ConnectionRequest) (db : Db)
    → IsNewRequest r
    → Steps db (record db { connection_requests = db.connection_requests ++ r ∷ [] })
Steps-add_request r db n = Steps-requests db _ (
    Evolves-append_new RequestFollows IsNewRequest db.connection_requests db.connection_requests r
      (Leads-refl db).requests n)

-- A new session, of a request that is accepted now and was not in `before`.
pub add_session-IsGood :
    (s : Session) (before db : Db)
    → IsShaped s
    → IsLinked db.connection_requests s
    → is_accepted before.connection_requests s.connection_request_id ≡ false
    → db.sessions ≡ before.sessions
    → IsGood before
    → IsGood db
    → IsGood (record db { sessions = db.sessions ++ s ∷ [] })
add_session-IsGood s before db sh li free e b g = record {
  shaped = All-append IsShaped db.sessions (s ∷ []) g.shaped (sh, tt);
  linked = All-append (IsLinked db.connection_requests) db.sessions (s ∷ []) g.linked (li, tt);
  distinct = rw map-append (
      AreDistinct-append (request_ids db.sessions) s.connection_request_id g.distinct (
        rw e (
          not_linked before.connection_requests s.connection_request_id before.sessions free
            b.linked)));
}

pub add_session-Leads :
    (s : Session) (db : Db)
    → IsNewSession s
    → Leads db (record db { sessions = db.sessions ++ s ∷ [] })
add_session-Leads s db n = record {
  sessions =
      Evolves-append_new SessionFollows IsNewSession db.sessions db.sessions s
        (Leads-refl db).sessions n;
  requests = (Leads-refl db).requests;
}
