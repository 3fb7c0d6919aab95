-- ===== src/Inbox/Matched.antt =====
-- A match that is accepted, src/babeltower/routes/matches.py, and the inboxes of the two agents,
-- src/babeltower/routes/inbox.py.
use babeltower.Prelude.{
  ℕ, ◌+◌, ◌≤◌, ◌<◌, String, ◌≡◌, ◌≢◌, refl, ◌∙◌, some, true, false, ◌||◌, [], ◌∷◌, if◌then◌else◌,
  ◌==◌, string_eq, arith, select, find-update_row-same, In, In-query, In-find, find-update_row,
  Bool-cases, inl, inr, subst, sym,
}
use text.Mathlib.TextEquality.{eq_iff}
use babeltower.Models.{Db, Agent, Session, SessionStatus, session_status_eq, days}
use babeltower.World.{World}
use babeltower.Exec.{ok, run, begin, scalar_one}
use babeltower.Relay.Persist.{on_agent, find_session}
use babeltower.Relay.End.{schedule_handoff_close}
use babeltower.Relay.Messages.{emit_to_session}
use babeltower.Sessions.{member_session, get_member_session}
use babeltower.Matches.{
  as_confirmed, count_match, accept_match_db, store_match, confirm_match, accept_proposed,
  accept_loaded, accept_match, get_agent_pubkey, handoff_window,
}
use babeltower.Lifecycle.Silent.{
  Silent-bind, Silent-here, emit_to_session-Silent, schedule_handoff_close-Silent,
}
use babeltower.Lifecycle.Proposing.{member_session-found}
use babeltower.Schemas.{InboxResponse, InboxMatchedHandoff}
use babeltower.Inbox.{
  seen_at, agent_by_id, is_handoff, with_members, matched_handoff, matched_handoffs, load_inbox,
  get_inbox,
}

-- What a member is told of a match, `a` and `b` being the agents of the session.
abbrev pub handed_off : Session → ℕ → String → Agent → Agent → InboxMatchedHandoff
handed_off s now poller_id a b = record {
  session_id = s.id;
  counterparty_pubkey = if s.agent_a_id == poller_id then b.pubkey else a.pubkey;
  matched_at = now;
}

-- The inbox looks a day back.
in_a_day : (now later : ℕ) → later < now + handoff_window → later ≤ now + days 1
in_a_day now later h = omega (arith, h)

module _ (s : Session) (agent_id proposer_id : String) (now later : ℕ) (db : Db) where
  -- The store after the acceptance and the start of a poll.
  abbrev polled : String → Db
  polled poller_id =
      on_agent poller_id (seen_at later) (accept_match_db s agent_id proposer_id now db)

  -- Three updates of rows of agents keep who has an id, and the key of that agent.
  agent_by_id-polled :
      (poller_id id : String) {a : Agent}
      → agent_by_id id db ≡ some a
      → (b : Agent) × (agent_by_id id (polled poller_id) ≡ some b) × (b.pubkey ≡ a.pubkey)
  unfolding accept_match_db
  agent_by_id-polled poller_id id {a} e =
      let p = λ (x : Agent). x.id == id in
      let one =
        find-update_row-same p (λ x. x.id == agent_id) count_match (λ x. x.pubkey) db.agents
          (λ y. refl) (λ y. refl) e in
      let two =
        find-update_row-same p (λ x. x.id == proposer_id) count_match (λ x. x.pubkey) _ (λ y. refl)
          (λ y. refl) one.1 in
      let three =
        find-update_row-same p (λ x. x.id == poller_id) (seen_at later) (λ x. x.pubkey) _
          (λ y. refl) (λ y. refl) two.1 in
      (three.0, three.1, three.2 ∙ (two.2 ∙ one.2))

  matched_handoffs-In :
      (poller_id : String) {a b : Agent}
      → find_session s.id db ≡ some s
      → agent_by_id s.agent_a_id db ≡ some a
      → agent_by_id s.agent_b_id db ≡ some b
      → later < now + handoff_window
      → ((s.agent_a_id == poller_id) || (s.agent_b_id == poller_id)) ≡ true
      → In (handed_off s now poller_id a b) (matched_handoffs poller_id later (polled poller_id))
  unfolding matched_handoffs accept_match_db
  matched_handoffs-In poller_id {a} {b} f ea eb h m =
      let x = agent_by_id-polled poller_id s.agent_a_id ea in
      let y = agent_by_id-polled poller_id s.agent_b_id eb in
      let t = as_confirmed now s in
      let joined : with_members (polled poller_id) t ≡ some (t, (x.0, y.0)) = rw (x.1, y.1) refl in
      (In-query (is_handoff poller_id later) (with_members (polled poller_id)) _
          (matched_handoff poller_id) (polled poller_id).sessions).1
        (
          t,
          (t, (x.0, y.0)),
          In-find (λ q. q.id == s.id) (polled poller_id).sessions
              (find-update_row (λ q. q.id == s.id) (as_confirmed now) db.sessions (λ q k. k) f),
          ground (arith, m, in_a_day now later h),
          joined,
          rw (x.2, y.2) refl,
        )

module _ (s : Session) (agent : Agent) (proposer_id : String) (now : ℕ) where
  -- What follows the commit leaves the database alone.
  store_match-store :
      (pubkey : String) (w : World)
      → (store_match s agent proposer_id pubkey now w).1.store
        ≡ accept_match_db s agent.id proposer_id now w.work
  unfolding store_match
  store_match-store pubkey w =
      (Silent-bind (emit_to_session s.id "match_confirmed" _) _ _
        (emit_to_session-Silent s.id "match_confirmed" _ _)
        λ a v.
          Silent-bind (schedule_handoff_close s.id) _ v (schedule_handoff_close-Silent s.id v)
            λ b u. Silent-here _).same.store

  accept_match-store :
      (session_id : String) (w : World) {proposer : Agent}
      → member_session session_id agent.id w.store ≡ some s
      → s.status ≡ SessionStatus.match_proposed
      → s.match_proposed_by_id ≡ some proposer_id
      → proposer_id ≢ agent.id
      → select (λ a. a.id == proposer_id) w.store.agents ≡ proposer ∷ []
      → (run (accept_match session_id agent now) w).1.store
        ≡ accept_match_db s agent.id proposer_id now w.store
  unfolding accept_match get_member_session accept_loaded accept_proposed confirm_match
      get_agent_pubkey scalar_one
  accept_match-store session_id w {proposer} m st by other one =
      let waits : (s.status == SessionStatus.match_proposed) ≡ true =
        (session_status_eq.equals_iff s.status SessionStatus.match_proposed).1 st in
      let not_self : (proposer_id == agent.id) ≡ false =
        elim (Bool-cases (proposer_id == agent.id)) [
          | inl t ↦ absurd (other ((eq_iff proposer_id agent.id).0 t))
          | inr t ↦ t
        ] in
      let stored : (accept_proposed s agent now (some proposer_id) (begin w)).1.store
          ≡ accept_match_db s agent.id proposer_id now w.store =
        rw (not_self, one) (store_match-store proposer.pubkey (begin w)) in
      rw (m, waits)
        (subst
          (λ o.
            (accept_proposed s agent now o (begin w)).1.store
            ≡ accept_match_db s agent.id proposer_id now w.store)
          (sym by) stored)

-- Where a proposed match is accepted with POST /match/accept by the member who did not propose it, each
-- of the two members finds the handoff with the key of the other when it polls, as the next call,
-- before the ten minutes are over after which the task that the acceptance starts closes the session.
-- The proposer and both members have a row.
pub accept_match-IsShown :
    (session_id : String) (agent poller : Agent) (s : Session) (proposer_id : String)
    (now later : ℕ) (w : World) {proposer a b : Agent}
    → member_session session_id agent.id w.store ≡ some s
    → s.status ≡ SessionStatus.match_proposed
    → s.match_proposed_by_id ≡ some proposer_id
    → proposer_id ≢ agent.id
    → select (λ x. x.id == proposer_id) w.store.agents ≡ proposer ∷ []
    → agent_by_id s.agent_a_id w.store ≡ some a
    → agent_by_id s.agent_b_id w.store ≡ some b
    → later < now + handoff_window
    → ((s.agent_a_id == poller.id) || (s.agent_b_id == poller.id)) ≡ true
    → (inbox : InboxResponse) × ((run
          (get_inbox poller later)
          (run (accept_match session_id agent now) w).1).0
        ≡ ok inbox)
      × In (handed_off s now poller.id a b) inbox.matched_handoffs
unfolding get_inbox load_inbox
accept_match-IsShown session_id agent poller s proposer_id now later w {a} {b} m st by other one ea
      eb h p =
    let found = member_session-found session_id agent.id w.store s m in
    (
      _,
      refl,
      rw (accept_match-store s agent proposer_id now session_id w m st by other one) (
          matched_handoffs-In s agent.id proposer_id now later w.store poller.id found.0 ea eb h p),
    )
