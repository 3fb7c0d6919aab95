-- ===== src/Lifecycle/Requests.antt =====
-- The calls on connection requests keep the lifecycle: src/babeltower/routes/connections.py.
use babeltower.Prelude.{
  ℕ, String, ◌≡◌, refl, ◌≢◌, inr, Option, none, some, true, false, ◌||◌, List, arith, ◌==◌, ◌!=◌,
  string_eq, leb, find, find_own, find-update_row, update_row,
}
use babeltower.Models.{Db, Agent, ConnectionRequest, RequestStatus, request_status_eq}
use babeltower.World.{World}
use babeltower.Exec.{ok, pure, ◌>>◌}
use babeltower.Connections.Respond.{
  on_request, find_request, accepted_at, new_session, accept_db, accept_connection, answered,
  update_request_status, reject_connection, cancel_connection,
}
use babeltower.Lifecycle.{RequestFollows, is_accepted, here}
use babeltower.Lifecycle.Rows.{Leads-trans}
use babeltower.Lifecycle.Steps.{
  Steps, Steps-trans, Steps-other, Steps-on_request, add_session-IsGood, add_session-Leads,
}
use babeltower.Lifecycle.Sound.{Fits, After, After-stay, After-commit, After-continue, After-if_run}

-- An answer to a pending request.
answered-Follows :
    (st : RequestStatus) (now : ℕ) (reason : Option String) (r : ConnectionRequest)
    → r.status ≡ RequestStatus.pending
    → st ≢ RequestStatus.pending
    → RequestFollows r (answered st now reason r)
answered-Follows st now reason r p n = inr (record {
  was_pending = p;
  not_pending = n;
  responded = refl;
  id = refl;
  from_agent = refl;
  to_agent = refl;
  target_intent = refl;
  from_intent = refl;
  created_at = refl;
  expires_at = refl;
})

module _ (w : World) (fits : Fits w) (r : ConnectionRequest)
    (found : find_request r.id w.work ≡ some r) (waits : r.status ≡ RequestStatus.pending) where
  update_request_status-After :
      (st : RequestStatus) (now : ℕ) (reason : Option String)
      → st ≢ RequestStatus.pending
      → After w (update_request_status r.id st now reason w)
  unfolding update_request_status
  update_request_status-After st now reason n = After-commit (ok tt) refl fits (
      Steps-on_request r.id (answered st now reason) w.work
        λ q e. answered-Follows st now reason q (ground (arith, found)) n)

-- The caller answers a request that is found, is the caller's and is pending.
answer-After :
    {A : Type 0} (w : World) (r : ConnectionRequest) (id : String) (st : RequestStatus) (now : ℕ)
    (reason : Option String) (a : A)
    → find_request id w.work ≡ some r
    → (r.status != RequestStatus.pending) ≡ false
    → st ≢ RequestStatus.pending
    → Fits w
    → After w ((update_request_status r.id st now reason >> pure a) w)
answer-After w r id st now reason a e p n f =
    After-continue _ _ _
      (update_request_status-After w f r (find_own (λ q. q.id) id w.work.connection_requests e)
        (ground arith) st now reason n)
      (λ b _ g. After-stay _ g)

reject-After :
    (w : World) (agent : Agent) (reason : Option String) (now : ℕ) (o : Option ConnectionRequest)
    (id : String)
    → find_request id w.work ≡ o
    → Fits w
    → After w (reject_connection id agent reason now w)
unfolding reject_connection
reject-After w agent reason now none id e f = rw (e, reject_connection) (After-stay _ f)
reject-After w agent reason now (some r) id e f =
    rw (e, reject_connection)
      (After-if_run w w (r.to_agent_id != agent.id) _ _ (λ _. After-stay _ f)
        λ _.
          After-if_run w w (r.status != RequestStatus.pending) _ _ (λ _. After-stay _ f)
            λ p. answer-After w r id RequestStatus.rejected now reason _ e p (λ h. cc) f)

pub reject_connection-After :
    (id : String) (agent : Agent) (reason : Option String) (now : ℕ) (w : World)
    → Fits w
    → After w (reject_connection id agent reason now w)
reject_connection-After id agent reason now w f = reject-After w agent reason now _ id refl f

cancel-After :
    (w : World) (agent : Agent) (now : ℕ) (o : Option ConnectionRequest) (id : String)
    → find_request id w.work ≡ o
    → Fits w
    → After w (cancel_connection id agent now w)
unfolding cancel_connection
cancel-After w agent now none id e f = rw (e, cancel_connection) (After-stay _ f)
cancel-After w agent now (some r) id e f =
    rw (e, cancel_connection)
      (After-if_run w w (r.from_agent_id != agent.id) _ _ (λ _. After-stay _ f)
        λ _.
          After-if_run w w (r.status != RequestStatus.pending) _ _ (λ _. After-stay _ f)
            λ p. answer-After w r id RequestStatus.cancelled now none _ e p (λ h. cc) f)

pub cancel_connection-After :
    (id : String) (agent : Agent) (now : ℕ) (w : World)
    → Fits w
    → After w (cancel_connection id agent now w)
cancel_connection-After id agent now w f = cancel-After w agent now _ id refl f

-- The request that is accepted was pending, so it had no session.
pending_not_accepted :
    (r : ConnectionRequest) (rs : List ConnectionRequest)
    → find (λ q. q.id == r.id) rs ≡ some r
    → r.status ≡ RequestStatus.pending
    → is_accepted rs r.id ≡ false
unfolding is_accepted
pending_not_accepted r rs e p = rw (e, is_accepted) (ground arith)

accepted_now :
    (r : ConnectionRequest) (now : ℕ) (rs : List ConnectionRequest)
    → find (λ q. q.id == r.id) rs ≡ some r
    → is_accepted (update_row (λ q. q.id == r.id) (accepted_at now) rs) r.id ≡ true
unfolding is_accepted
accepted_now r now rs e =
    rw (find-update_row (λ q. q.id == r.id) (accepted_at now) rs (λ q h. h) e, is_accepted) refl

accepted-Follows :
    (now : ℕ) (r : ConnectionRequest)
    → r.status ≡ RequestStatus.pending
    → RequestFollows r (accepted_at now r)
accepted-Follows now r p = inr (record {
  was_pending = p;
  not_pending = λ h. cc;
  responded = refl;
  id = refl;
  from_agent = refl;
  to_agent = refl;
  target_intent = refl;
  from_intent = refl;
  created_at = refl;
  expires_at = refl;
})

module _ (id : String) (r : ConnectionRequest) (agent_id : String) (now : ℕ) (db : Db)
    (found : find_request r.id db ≡ some r) (waits : r.status ≡ RequestStatus.pending) where
  abbrev marked : Db
  marked = on_request r.id (accepted_at now) db

  marked-Steps : Steps db marked
  marked-Steps =
      Steps-on_request r.id (accepted_at now) db
        (λ q e. accepted-Follows now q (ground (arith, found)))

  accept_db-Steps : Steps db (accept_db id r agent_id now db)
  unfolding accept_db
  accept_db-Steps =
      Steps-trans
        (record {
          good = λ g.
              add_session-IsGood (new_session id r now) db marked (refl, refl, refl)
                (accepted_now r now db.connection_requests found)
                (pending_not_accepted r db.connection_requests found waits) refl g
                (marked-Steps.good g);
          leads = λ g.
              Leads-trans (marked-Steps.leads g)
                (add_session-Leads (new_session id r now) marked here);
        })
        (Steps-other refl refl)

accept-After :
    (w : World) (new_id : String) (agent : Agent) (now : ℕ) (o : Option ConnectionRequest)
    (id : String)
    → find_request id w.work ≡ o
    → Fits w
    → After w (accept_connection new_id id agent now w)
unfolding accept_connection
accept-After w new_id agent now none id e f = rw (e, accept_connection) (After-stay _ f)
accept-After w new_id agent now (some r) id e f =
    rw (e, accept_connection)
      (After-if_run w w (r.to_agent_id != agent.id) _ _ (λ _. After-stay _ f)
        λ _.
          After-if_run w w (r.status != RequestStatus.pending || leb r.expires_at now) _ _
            (λ _. After-stay _ f)
            λ p. After-commit _ refl f (
              accept_db-Steps new_id r agent.id now w.work
                (find_own (λ q. q.id) id w.work.connection_requests e) (ground arith)))

pub accept_connection-After :
    (new_id id : String) (agent : Agent) (now : ℕ) (w : World)
    → Fits w
    → After w (accept_connection new_id id agent now w)
accept_connection-After new_id id agent now w f = accept-After w new_id agent now _ id refl f
