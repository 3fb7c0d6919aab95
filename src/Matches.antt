-- ===== src/Matches.antt =====
-- src/babeltower/routes/matches.py: a match is proposed, accepted or rejected.
use babeltower.Prelude.{
  ℕ, ◌+◌, String, Option, none, some, ◌&&◌, [], ◌∷◌, map, if◌then◌else◌, ◌==◌, ◌!=◌, string_eq,
  select, update_row, column_is,
}
use babeltower.Models.{Db, Agent, Session, SessionStatus, session_status_eq, minutes}
use babeltower.World.{Metrics, Value}
use babeltower.Exec.{
  Exec, http, pure, raise, query, execute, commit, on_metrics, ◌>>=◌, ◌>>◌, scalar_one, Response,
  reply, error_response,
}
use babeltower.Relay.Persist.{on_session, on_agent}
use babeltower.Relay.End.{schedule_handoff_close}
use babeltower.Relay.Messages.{emit_to_counterparty, emit_to_session}
use babeltower.Sessions.{get_member_session}

abbrev pub handoff_window : ℕ
handoff_window = minutes 10

-- `match_status` and `proposed_by` of MatchProposeResponse
pub data Proposal : Type 0 where
  proposed confirmed : String → Proposal

-- `get_agent_pubkey`
unfoldable pub get_agent_pubkey : String → Exec String
unfolding select scalar_one
get_agent_pubkey agent_id = do
  rows ← query (λ db. map (λ a. a.pubkey) (select (λ a. a.id == agent_id) db.agents))
  scalar_one rows

abbrev pub as_proposed : String → ℕ → Session → Session
as_proposed agent_id now s = record s {
  status = SessionStatus.match_proposed;
  match_proposed_by_id = some agent_id;
  match_proposed_at = some now;
}

-- The handler from the change of the row on.
unfoldable pub propose_active : Session → Agent → ℕ → Exec (Response Proposal)
unfolding update_row
propose_active row agent now = do
  execute (on_session row.id (as_proposed agent.id now))
  commit
  emit_to_counterparty row.id agent.id "match_proposed"
      (("proposed_by", Value.text agent.pubkey) ∷ ("proposed_at", Value.time now) ∷ [])
  pure (reply (proposed agent.pubkey))

unfoldable pub confirmed_by : Option String → Exec (Response Proposal)
confirmed_by none = pure (error_response 409 "session_not_active")
confirmed_by (some proposer) = do
  pubkey ← get_agent_pubkey proposer
  pure (reply (confirmed pubkey))

unfoldable pub propose_loaded : Agent → ℕ → Option Session → Exec (Response Proposal)
propose_loaded agent now none = raise (http 404 "session not found")
propose_loaded agent now (some row) =
    if row.status == SessionStatus.match_proposed && column_is row.match_proposed_by_id agent.id
    then pure (reply (proposed agent.pubkey))
    else if row.status == SessionStatus.match_confirmed
    then confirmed_by row.match_proposed_by_id
    else if row.status != SessionStatus.active
    then pure (error_response 409 "session_not_active")
    else propose_active row agent now

-- POST /match/propose
unfoldable pub propose_match : String → Agent → ℕ → Exec (Response Proposal)
propose_match session_id agent now = do
  row ← get_member_session session_id agent
  propose_loaded agent now row

abbrev pub as_confirmed : ℕ → Session → Session
as_confirmed now s = record s {
  status = SessionStatus.match_confirmed;
  match_confirmed_at = some now;
  expires_at = now + handoff_window;
}

abbrev pub count_match : Agent → Agent
count_match a = record a { matches_confirmed_total = a.matches_confirmed_total + 1 }

abbrev pub inc_matches : Metrics → Metrics
inc_matches m = record m { matches_confirmed_total = m.matches_confirmed_total + 1 }

unfoldable pub accept_match_db : Session → String → String → ℕ → Db → Db
unfolding update_row
accept_match_db row agent_id proposer_id now db =
    on_agent proposer_id count_match
      (on_agent agent_id count_match (on_session row.id (as_confirmed now) db))

-- The handler from the change of the rows on. The reply is `confirmed_at`.
unfoldable pub store_match : Session → Agent → String → String → ℕ → Exec (Response ℕ)
store_match row agent proposer_id proposer_pubkey now = do
  execute (accept_match_db row agent.id proposer_id now)
  commit
  on_metrics inc_matches
  emit_to_session row.id "match_confirmed" (
      ("confirmed_at", Value.time now)
      ∷ ("proposed_by", Value.text proposer_pubkey)
      ∷ ("accepted_by", Value.text agent.pubkey)
      ∷ [])
  schedule_handoff_close row.id
  pure (reply now)

-- The handler once the proposer is known and is another agent.
unfoldable pub confirm_match : Session → Agent → String → ℕ → Exec (Response ℕ)
confirm_match row agent proposer_id now = do
  proposer_pubkey ← get_agent_pubkey proposer_id
  store_match row agent proposer_id proposer_pubkey now

unfoldable pub accept_proposed : Session → Agent → ℕ → Option String → Exec (Response ℕ)
accept_proposed row agent now none = pure (error_response 409 "match_not_proposed")
accept_proposed row agent now (some proposer_id) =
    if proposer_id == agent.id
    then pure (error_response 403 "proposer_cannot_accept")
    else confirm_match row agent proposer_id now

unfoldable pub accept_loaded : Agent → ℕ → Option Session → Exec (Response ℕ)
accept_loaded agent now none = raise (http 404 "session not found")
accept_loaded agent now (some row) =
    if row.status != SessionStatus.match_proposed
    then pure (error_response 409 "match_not_proposed")
    else accept_proposed row agent now row.match_proposed_by_id

-- POST /match/accept
unfoldable pub accept_match : String → Agent → ℕ → Exec (Response ℕ)
accept_match session_id agent now = do
  row ← get_member_session session_id agent
  accept_loaded agent now row

abbrev pub as_rejected : Session → Session
as_rejected s = record s {
  status = SessionStatus.active;
  match_proposed_by_id = none;
  match_proposed_at = none;
}

abbrev pub or_null : Option String → Value
or_null none = Value.null
or_null (some t) = Value.text t

unfoldable pub turn_down : Session → Agent → Option String → Exec (Response (Unit {0}))
unfolding update_row
turn_down row agent reason = do
  execute (on_session row.id as_rejected)
  commit
  emit_to_session row.id "match_rejected"
      (("rejected_by", Value.text agent.pubkey) ∷ ("reason", or_null reason) ∷ [])
  pure (reply tt)

unfoldable pub reject_proposed :
    Session → Agent → Option String → Option String → Exec (Response (Unit {0}))
reject_proposed row agent reason none = pure (error_response 409 "match_not_proposed")
reject_proposed row agent reason (some proposer_id) =
    if proposer_id == agent.id
    then pure (error_response 403 "proposer_cannot_reject")
    else turn_down row agent reason

unfoldable pub reject_loaded : Agent → Option String → Option Session → Exec (Response (Unit {0}))
reject_loaded agent reason none = raise (http 404 "session not found")
reject_loaded agent reason (some row) =
    if row.status != SessionStatus.match_proposed
    then pure (error_response 409 "match_not_proposed")
    else reject_proposed row agent reason row.match_proposed_by_id

-- POST /match/reject
unfoldable pub reject_match : String → Agent → Option String → Exec (Response (Unit {0}))
reject_match session_id agent reason = do
  row ← get_member_session session_id agent
  reject_loaded agent reason row
