-- ===== src/Inbox/Accepted.antt =====
-- A request that is accepted, src/babeltower/routes/connections.py, and the inboxes of the two agents,
-- src/babeltower/routes/inbox.py.
use babeltower.Prelude.{
  ℕ, ◌+◌, ◌<◌, String, ◌≡◌, refl, ◌∙◌, Option, some, true, false, ◌||◌, [], ◌∷◌, ◌++◌, inl,
  if◌then◌else◌, ◌==◌, string_eq, leb, arith, find, update_row, find-update_row-same,
  find-update_row, find_own, In, In-append, In-query,
}
use text.Mathlib.TextEquality.{eq_iff}
use babeltower.Models.{
  Db, Agent, ConnectionRequest, RequestStatus, request_status_eq, session_status_eq,
}
use babeltower.World.{World}
use babeltower.Exec.{ok, run}
use babeltower.Connections.{request_ttl}
use babeltower.Connections.Respond.{
  find_request, accepted_at, new_session, accept_db, accept_connection_request, accept_connection,
  count_accepted, accept_loaded,
}
use babeltower.Relay.Persist.{on_agent}
use babeltower.Schemas.{InboxResponse, InboxSession}
use babeltower.Inbox.{
  seen_at, agent_by_id, both, awaits_join, with_members_and_request, accepted_session,
  accepted_sessions, load_inbox, get_inbox,
}

both-some :
    {A B : Type 0} {o : Option A} {o' : Option B} {a : A} {b : B}
    → o ≡ some a
    → o' ≡ some b
    → both o o' ≡ some (a, b)
both-some e f = rw (e, f) refl

-- What an agent is told of the session of an accepted request, `a` being the sender.
abbrev pub shown : ConnectionRequest → String → ℕ → String → Agent → Agent → InboxSession
shown r id now poller_id a b = record {
  session_id = id;
  counterparty_pubkey = if r.from_agent_id == poller_id then b.pubkey else a.pubkey;
  accepted_at = now;
  session_expires_at = now + request_ttl;
  my_intent_id = if r.from_agent_id == poller_id then r.from_intent_id else r.target_intent_id;
  counterparty_intent_id =
      if r.from_agent_id == poller_id then r.target_intent_id else r.from_intent_id;
}

module _ (r : ConnectionRequest) (id : String) (now later : ℕ) (db : Db) where
  -- The store after the acceptance and the start of a poll.
  abbrev polled : String → String → Db
  polled target_id poller_id = on_agent poller_id (seen_at later) (accept_db id r target_id now db)

  -- Neither changes who has an id, and the key of that agent.
  agent_by_id-polled :
      (target_id poller_id agent_id : String) {a : Agent}
      → agent_by_id agent_id db ≡ some a
      → (b : Agent) × (agent_by_id agent_id (polled target_id poller_id) ≡ some b)
        × (b.pubkey ≡ a.pubkey)
  unfolding accept_db
  agent_by_id-polled target_id poller_id agent_id {a} e =
      let p = λ (x : Agent). x.id == agent_id in
      let one =
        find-update_row-same p (λ x. x.id == target_id) count_accepted (λ x. x.pubkey) db.agents
          (λ y. refl) (λ y. refl) e in
      let two =
        find-update_row-same p (λ x. x.id == poller_id) (seen_at later) (λ x. x.pubkey)
          (update_row (λ x. x.id == target_id) count_accepted db.agents) (λ y. refl) (λ y. refl)
          one.1 in
      (two.0, two.1, two.2 ∙ one.2)

  -- Both members find the session: `members` are its agents, by their keys.
  accepted_sessions-In :
      (target_id poller_id : String) {a b : Agent}
      → find_request r.id db ≡ some r
      → agent_by_id r.from_agent_id db ≡ some a
      → agent_by_id r.to_agent_id db ≡ some b
      → later < now + request_ttl
      → ((r.from_agent_id == poller_id) || (r.to_agent_id == poller_id)) ≡ true
      → In
          (shown r id now poller_id a b)
          (accepted_sessions poller_id later (polled target_id poller_id))
  unfolding accepted_sessions accept_db new_session
  accepted_sessions-In target_id poller_id {a} {b} f ea eb h m =
      let x = agent_by_id-polled target_id poller_id r.from_agent_id ea in
      let y = agent_by_id-polled target_id poller_id r.to_agent_id eb in
      let s = new_session id r now in
      let found : find (λ q. q.id == r.id) (polled target_id poller_id).connection_requests
          ≡ some (accepted_at now r) =
        find-update_row (λ q. q.id == r.id) (accepted_at now) db.connection_requests (λ q k. k) f in
      (In-query (awaits_join poller_id later)
          (with_members_and_request (polled target_id poller_id)) _ (accepted_session poller_id)
          (db.sessions ++ s ∷ [])).1
        (
          s,
          ((s, (x.0, y.0)), accepted_at now r),
          In-append db.sessions (s ∷ []) s (inl refl),
          ground (arith, m, h),
          both-some (both-some refl (both-some x.1 y.1)) found,
          rw (x.2, y.2) refl,
        )

accept_connection-store :
    (id request_id : String) (agent : Agent) (r : ConnectionRequest) (now : ℕ) (w : World)
    → find_request request_id w.store ≡ some r
    → r.to_agent_id ≡ agent.id
    → r.status ≡ RequestStatus.pending
    → now < r.expires_at
    → (run (accept_connection id request_id agent now) w).1.store
      ≡ accept_db id r agent.id now w.store
unfolding accept_connection accept_loaded accept_connection_request
accept_connection-store id request_id agent r now w f to st t =
    let mine : (r.to_agent_id == agent.id) ≡ true = (eq_iff r.to_agent_id agent.id).1 to in
    let pending : (r.status == RequestStatus.pending) ≡ true =
      (request_status_eq.equals_iff r.status RequestStatus.pending).1 st in
    let in_time : leb r.expires_at now ≡ false = ground (arith, t) in
    rw (f, mine, pending, in_time) refl

-- After POST /connect/{request_id}/accept of a pending request that has not run out, by the agent it
-- went to, each of the two agents finds the new session when it polls before the session's own
-- deadline: the key of the other agent, and the two intents, its own first. Both agents have a row.
pub accept_connection-IsShown :
    (id request_id : String) (agent poller : Agent) (r : ConnectionRequest) (now later : ℕ)
    (w : World) {a b : Agent}
    → find_request request_id w.store ≡ some r
    → r.to_agent_id ≡ agent.id
    → r.status ≡ RequestStatus.pending
    → now < r.expires_at
    → agent_by_id r.from_agent_id w.store ≡ some a
    → agent_by_id r.to_agent_id w.store ≡ some b
    → later < now + request_ttl
    → ((r.from_agent_id == poller.id) || (r.to_agent_id == poller.id)) ≡ true
    → (inbox : InboxResponse) × ((run
          (get_inbox poller later)
          (run (accept_connection id request_id agent now) w).1).0
        ≡ ok inbox)
      × In (shown r id now poller.id a b) inbox.accepted_sessions_awaiting_join
unfolding get_inbox load_inbox
accept_connection-IsShown id request_id agent poller r now later w {a} {b} f to st t ea eb h m =
    let own : find_request r.id w.store ≡ some r =
      find_own (λ q. q.id) request_id w.store.connection_requests f in
    (
      _,
      refl,
      rw (accept_connection-store id request_id agent r now w f to st t)
          (accepted_sessions-In r id now later w.store agent.id poller.id own ea eb h m),
    )
