-- ===== src/Sessions.antt =====
-- src/babeltower/routes/sessions.py: a member ends its session. `get_member_session` is the same
-- function in routes/matches.py.
pub mod Closed
use babeltower.Prelude.{
  ℕ, String, Option, none, some, ◌&&◌, if◌then◌else◌, ◌!=◌, string_eq, find, update_row,
}
use babeltower.Models.{Db, Agent, Session, SessionStatus, session_status_eq}
use babeltower.Exec.{Exec, http, pure, raise, query, execute, commit, ◌>>=◌, ◌>>◌, Response, reply}
use babeltower.Relay.Persist.{find_session, on_session}
use babeltower.Relay.End.{handler}
use babeltower.Relay.End

-- The row, if the agent is a member.
abbrev pub if_member : String → Option Session → Option Session
if_member agent_id none = none
if_member agent_id (some row) =
    if agent_id != row.agent_a_id && agent_id != row.agent_b_id then none else some row

unfoldable pub member_session : String → String → Db → Option Session
unfolding find
member_session session_id agent_id db = if_member agent_id (find_session session_id db)

-- `get_member_session`
unfoldable pub get_member_session : String → Agent → Exec (Option Session)
unfolding member_session
get_member_session session_id agent = query (member_session session_id agent.id)

abbrev pub ended : ℕ → String → Session → Session
ended now reason s = record s {
  status = SessionStatus.closed;
  closed_at = some now;
  close_reason = some reason;
}

-- `close_session`
unfoldable pub close_session : String → String → ℕ → Exec (Unit {0})
unfolding update_row
close_session session_id reason now = do execute (on_session session_id (ended now reason)); commit

unfoldable pub end_loaded : ℕ → Option Session → Exec (Response (Unit {0}))
end_loaded now none = raise (http 404 "session not found")
end_loaded now (some row) =
    if row.status != SessionStatus.closed
    then (do
      close_session row.id "ended_by_agent" now
      End.end_session handler row.id "ended_by_agent" now
      pure (reply tt))
    else pure (reply tt)

-- POST /session/{session_id}/end
unfoldable pub end_session : String → Agent → ℕ → Exec (Response (Unit {0}))
end_session session_id agent now = do row ← get_member_session session_id agent; end_loaded now row
