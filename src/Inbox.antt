-- ===== src/Inbox.antt =====
-- src/babeltower/routes/inbox.py: what an agent finds when it polls. The query of each list is the
-- WHERE, the joins and the ORDER BY of the source, in this order.
pub mod Asked
pub mod Matched
pub mod Presence
pub mod Accepted
use babeltower.Prelude.{
  ℕ, ◌-◌, String, Option, none, some, Bool, true, false, ◌&&◌, ◌||◌, List, map, if◌then◌else◌, ◌==◌,
  ◌!=◌, string_eq, leb, ltb, find, select, column_ge, sort_by, join_rows,
}
use babeltower.Models.{
  Db, Agent, Intent, ConnectionRequest, Session, RequestStatus, SessionStatus, request_status_eq,
  session_status_eq, days,
}
use babeltower.Exec.{Exec, ok, pure, query, execute, commit, ◌>>=◌, ◌>>◌}
use babeltower.Relay.Persist.{on_agent, or_else}
use babeltower.Schemas.{
  IntentResponse, InboxPendingRequest, InboxSession, InboxMatchProposal, InboxMatchedHandoff,
  InboxRejectedRequest, InboxResponse,
}

-- ORDER BY a column, ascending: NULLs stand last.
abbrev pub column_before : Option ℕ → Option ℕ → Bool
column_before a none = true
column_before none (some b) = false
column_before (some a) (some b) = leb a b

abbrev pub both : {A B : Type 0} → Option A → Option B → Option (A × B)
both none b = none
both (some a) none = none
both (some a) (some b) = some (a, b)

abbrev pub agent_by_id : String → Db → Option Agent
agent_by_id id db = find (λ a. a.id == id) db.agents

-- `_intent_response`
abbrev pub intent_response : Intent → String → IntentResponse
intent_response intent agent_pubkey = record {
  intent_id = intent.id;
  agent_pubkey = agent_pubkey;
  match_type = intent.match_type;
  seeking = intent.seeking;
  offering = intent.offering;
  constraints = intent.constraints;
  filters = intent.filters;
  ttl_days = intent.ttl_days;
  created_at = intent.created_at;
  expires_at = intent.expires_at;
  status = intent.status;
}

abbrev pub is_pending_inbound : String → ℕ → ConnectionRequest → Bool
is_pending_inbound agent_id now r =
    r.to_agent_id == agent_id && (r.status == RequestStatus.pending && ltb now r.expires_at)

-- The joins of a request with its sender and the sender's intent.
abbrev pub with_sender : Db → ConnectionRequest → Option (ConnectionRequest × (Agent × Intent))
with_sender db r =
    both (some r)
      (both (agent_by_id r.from_agent_id db) (find (λ i. i.id == r.from_intent_id) db.intents))

abbrev pub pending_request : ConnectionRequest × (Agent × Intent) → InboxPendingRequest
pending_request (r, (sender, intent)) = record {
  request_id = r.id;
  from_agent_pubkey = sender.pubkey;
  from_intent = intent_response intent sender.pubkey;
  target_intent_id = r.target_intent_id;
  opening_message = r.opening_message;
  received_at = r.created_at;
  expires_at = r.expires_at;
}

unfoldable pub pending_requests : String → ℕ → Db → List InboxPendingRequest
unfolding select find sort_by join_rows
pending_requests agent_id now db = map pending_request (
    sort_by (λ (x y : ConnectionRequest × (Agent × Intent)). leb x.0.created_at y.0.created_at)
      (join_rows (with_sender db)
        (select (is_pending_inbound agent_id now) db.connection_requests)))

abbrev pub is_member : String → Session → Bool
is_member agent_id s = s.agent_a_id == agent_id || s.agent_b_id == agent_id

abbrev pub awaits_join : String → ℕ → Session → Bool
awaits_join agent_id now s =
    is_member agent_id s && (s.status == SessionStatus.awaiting_join && ltb now s.expires_at)

abbrev pub with_members : Db → Session → Option (Session × (Agent × Agent))
with_members db s = both (some s) (both (agent_by_id s.agent_a_id db) (agent_by_id s.agent_b_id db))

abbrev pub with_members_and_request :
    Db → Session → Option ((Session × (Agent × Agent)) × ConnectionRequest)
with_members_and_request db s =
    both (with_members db s) (find (λ r. r.id == s.connection_request_id) db.connection_requests)

abbrev pub counterparty : String → Session × (Agent × Agent) → String
counterparty agent_id (s, (a, b)) = if s.agent_a_id == agent_id then b.pubkey else a.pubkey

abbrev pub accepted_session :
    String → (Session × (Agent × Agent)) × ConnectionRequest → InboxSession
accepted_session agent_id ((s, members), r) =
    let is_requester = s.agent_a_id == agent_id in
    record {
      session_id = s.id;
      counterparty_pubkey = counterparty agent_id (s, members);
      accepted_at = s.created_at;
      session_expires_at = s.expires_at;
      my_intent_id = if is_requester then r.from_intent_id else r.target_intent_id;
      counterparty_intent_id = if is_requester then r.target_intent_id else r.from_intent_id;
    }

unfoldable pub accepted_sessions : String → ℕ → Db → List InboxSession
unfolding select find sort_by join_rows
accepted_sessions agent_id now db = map (accepted_session agent_id) (
    sort_by
      (λ (x y : (Session × (Agent × Agent)) × ConnectionRequest).
        leb x.0.0.created_at y.0.0.created_at)
      (join_rows (with_members_and_request db) (select (awaits_join agent_id now) db.sessions)))

-- `match_proposed_by_id != agent.id` holds of no NULL.
abbrev pub proposed_by_other : String → Session → Bool
proposed_by_other agent_id s = elim s.match_proposed_by_id [
  | none ↦ false
  | some proposer ↦ proposer != agent_id
]

abbrev pub is_proposal : String → Session → Bool
is_proposal agent_id s =
    is_member agent_id s
    && (s.status == SessionStatus.match_proposed && proposed_by_other agent_id s)

abbrev pub proposer_of : Db → Option String → Option Agent
proposer_of db none = none
proposer_of db (some id) = agent_by_id id db

abbrev pub match_proposal : Session × Agent → InboxMatchProposal
match_proposal (s, proposer) = record {
  session_id = s.id;
  proposed_by = proposer.pubkey;
  proposed_at = or_else s.match_proposed_at s.created_at;
}

unfoldable pub match_proposals : String → Db → List InboxMatchProposal
unfolding select find sort_by join_rows
match_proposals agent_id db = map match_proposal (
    sort_by (λ (x y : Session × Agent). column_before x.0.match_proposed_at y.0.match_proposed_at)
      (join_rows (λ s. both (some s) (proposer_of db s.match_proposed_by_id))
        (select (is_proposal agent_id) db.sessions)))

abbrev pub is_handoff : String → ℕ → Session → Bool
is_handoff agent_id now s =
    is_member agent_id s
    && (s.status == SessionStatus.match_confirmed && column_ge s.match_confirmed_at (now - days 1))

abbrev pub matched_handoff : String → Session × (Agent × Agent) → InboxMatchedHandoff
matched_handoff agent_id (s, members) = record {
  session_id = s.id;
  counterparty_pubkey = counterparty agent_id (s, members);
  matched_at = or_else s.match_confirmed_at s.created_at;
}

unfoldable pub matched_handoffs : String → ℕ → Db → List InboxMatchedHandoff
unfolding select find sort_by join_rows
matched_handoffs agent_id now db = map (matched_handoff agent_id) (
    sort_by
      (λ (x y : Session × (Agent × Agent)).
        column_before x.0.match_confirmed_at y.0.match_confirmed_at)
      (join_rows (with_members db) (select (is_handoff agent_id now) db.sessions)))

abbrev pub is_recently_rejected : String → ℕ → ConnectionRequest → Bool
is_recently_rejected agent_id now r =
    r.from_agent_id == agent_id
    && (r.status == RequestStatus.rejected && column_ge r.responded_at (now - days 1))

abbrev pub rejected_request : ConnectionRequest → InboxRejectedRequest
rejected_request r = record {
  request_id = r.id;
  rejected_at = or_else r.responded_at r.created_at;
  reason = r.rejection_reason;
}

-- The newest first: the order is descending.
unfoldable pub recently_rejected : String → ℕ → Db → List InboxRejectedRequest
unfolding select sort_by
recently_rejected agent_id now db = map rejected_request (
    sort_by (λ (x y : ConnectionRequest). column_before y.responded_at x.responded_at)
      (select (is_recently_rejected agent_id now) db.connection_requests))

abbrev pub seen_at : ℕ → Agent → Agent
seen_at now a = record a { last_seen_at = some now }

-- `load_inbox`. The change of the agent's row is flushed before the first query.
unfoldable pub load_inbox : Agent → ℕ → Exec InboxResponse
load_inbox agent now = do
  execute (on_agent agent.id (seen_at now))
  pending ← query (pending_requests agent.id now)
  accepted ← query (accepted_sessions agent.id now)
  proposals ← query (match_proposals agent.id)
  handoffs ← query (matched_handoffs agent.id now)
  rejected ← query (recently_rejected agent.id now)
  commit
  pure (record {
    pending_requests = pending;
    accepted_sessions_awaiting_join = accepted;
    match_proposals = proposals;
    matched_handoffs = handoffs;
    recently_rejected = rejected;
  })

-- GET /inbox
unfoldable pub get_inbox : Agent → ℕ → Exec InboxResponse
unfolding load_inbox
get_inbox agent now = load_inbox agent now
