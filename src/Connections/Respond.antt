-- ===== src/Connections/Respond.antt =====
-- src/babeltower/routes/connections.py: accepting, rejecting and cancelling a request.
use babeltower.Prelude.{
  ℕ, ◌+◌, String, Option, none, some, ◌||◌, [], ◌∷◌, ◌++◌, if◌then◌else◌, ◌==◌, ◌!=◌, string_eq,
  leb, find, update_row,
}
use babeltower.Models.{
  Db, Agent, ConnectionRequest, Session, RequestStatus, SessionStatus, request_status_eq,
}
use babeltower.Exec.{
  Exec, http, pure, raise, query, execute, commit, ◌>>=◌, ◌>>◌, Response, reply, error_response,
}
use babeltower.Connections.{request_ttl}

abbrev pub find_request : String → Db → Option ConnectionRequest
find_request id db = find (λ r. r.id == id) db.connection_requests

abbrev pub on_request : String → (ConnectionRequest → ConnectionRequest) → Db → Db
on_request id f db = record db {
  connection_requests = update_row (λ r. r.id == id) f db.connection_requests;
}

abbrev pub accepted_at : ℕ → ConnectionRequest → ConnectionRequest
accepted_at now r = record r { status = RequestStatus.accepted; responded_at = some now }

unfoldable pub new_session : String → ConnectionRequest → ℕ → Session
new_session id r now = record {
  id = id;
  agent_a_id = r.from_agent_id;
  agent_b_id = r.to_agent_id;
  connection_request_id = r.id;
  status = SessionStatus.awaiting_join;
  created_at = now;
  expires_at = now + request_ttl;
  closed_at = none;
  close_reason = none;
  message_count = 0;
  active_at = none;
  match_proposed_by_id = none;
  match_proposed_at = none;
  match_confirmed_at = none;
}

abbrev pub count_accepted : Agent → Agent
count_accepted a = record a {
  connection_requests_accepted_total = a.connection_requests_accepted_total + 1;
}

unfoldable pub accept_db : String → ConnectionRequest → String → ℕ → Db → Db
unfolding new_session update_row
accept_db id r agent_id now db = record (on_request r.id (accepted_at now) db) {
  sessions = db.sessions ++ new_session id r now ∷ [];
  agents = update_row (λ a. a.id == agent_id) count_accepted db.agents;
}

-- `accept_connection_request`
unfoldable pub accept_connection_request : String → ConnectionRequest → Agent → ℕ → Exec Session
unfolding accept_db
accept_connection_request id r target_agent now = do
  execute (accept_db id r target_agent.id now)
  commit
  pure (new_session id r now)

unfoldable pub accept_loaded :
    String → Agent → ℕ → Option ConnectionRequest → Exec (Response Session)
unfolding accept_connection_request
accept_loaded id agent now none = raise (http 404 "connection request not found")
accept_loaded id agent now (some r) =
    if r.to_agent_id != agent.id
    then raise (http 404 "connection request not found")
    else if r.status != RequestStatus.pending || leb r.expires_at now
    then pure (error_response 409 "connection_request_not_pending")
    else (do row ← accept_connection_request id r agent now; pure (reply row))

-- POST /connect/{request_id}/accept; `id` is the id of the new session.
unfoldable pub accept_connection : String → String → Agent → ℕ → Exec (Response Session)
unfolding accept_loaded find
accept_connection id request_id agent now = do
  r ← query (find_request request_id)
  accept_loaded id agent now r

-- `update_request_status`
abbrev pub answered : RequestStatus → ℕ → Option String → ConnectionRequest → ConnectionRequest
answered status_value now reason r = record r {
  status = status_value;
  responded_at = some now;
  rejection_reason = if status_value == RequestStatus.rejected then reason else r.rejection_reason;
}

unfoldable pub update_request_status : String → RequestStatus → ℕ → Option String → Exec (Unit {0})
unfolding update_row
update_request_status id status_value now reason = do
  execute (on_request id (answered status_value now reason))
  commit

reject_loaded : Agent → Option String → ℕ → Option ConnectionRequest → Exec (Response (Unit {0}))
unfolding update_request_status
reject_loaded agent reason now none = raise (http 404 "connection request not found")
reject_loaded agent reason now (some r) =
    if r.to_agent_id != agent.id
    then raise (http 404 "connection request not found")
    else if r.status != RequestStatus.pending
    then pure (error_response 409 "connection_request_not_pending")
    else (do update_request_status r.id RequestStatus.rejected now reason; pure (reply tt))

-- POST /connect/{request_id}/reject; `reason` is none where there is no body.
unfoldable pub reject_connection : String → Agent → Option String → ℕ → Exec (Response (Unit {0}))
unfolding reject_loaded find
reject_connection request_id agent reason now = do
  r ← query (find_request request_id)
  reject_loaded agent reason now r

cancel_loaded : Agent → ℕ → Option ConnectionRequest → Exec (Response (Unit {0}))
unfolding update_request_status
cancel_loaded agent now none = raise (http 404 "connection request not found")
cancel_loaded agent now (some r) =
    if r.from_agent_id != agent.id
    then raise (http 404 "connection request not found")
    else if r.status != RequestStatus.pending
    then pure (error_response 409 "connection_request_not_pending")
    else (do update_request_status r.id RequestStatus.cancelled now none; pure (reply tt))

-- POST /connect/{request_id}/cancel
unfoldable pub cancel_connection : String → Agent → ℕ → Exec (Response (Unit {0}))
unfolding cancel_loaded find
cancel_connection request_id agent now = do
  r ← query (find_request request_id)
  cancel_loaded agent now r
