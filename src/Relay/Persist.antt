-- ===== src/Relay/Persist.antt =====
-- relay.py: the writes of the relay to the database, each in a session of its own.
use babeltower.Prelude.{
  ℕ, ◌+◌, String, Option, none, some, if◌then◌else◌, ◌==◌, string_eq, find, update_row,
}
use babeltower.Models.{Db, Agent, Session, SessionStatus, session_status_eq, minutes}
use babeltower.Exec.{Exec, ok}

abbrev pub active_window : ℕ
active_window = minutes 30

-- A transaction that the relay opens and commits. A request that calls the relay has committed before:
-- it holds no changes, and what it reads next is what is stored.
abbrev pub on_store : (Db → Db) → Exec (Unit {0})
on_store f w = (ok tt, record w { store = f w.store; work = f w.store })

abbrev pub find_session : String → Db → Option Session
find_session session_id db = find (λ s. s.id == session_id) db.sessions

abbrev pub on_session : String → (Session → Session) → Db → Db
on_session session_id f db = record db {
  sessions = update_row (λ s. s.id == session_id) f db.sessions;
}

abbrev pub on_agent : String → (Agent → Agent) → Db → Db
on_agent agent_id f db = record db { agents = update_row (λ a. a.id == agent_id) f db.agents }

-- `agent.sessions_started_total = (agent.sessions_started_total or 0) + 1`
abbrev count_started : Agent → Agent
count_started a = record a { sessions_started_total = a.sessions_started_total + 1 }

abbrev pub activated : ℕ → Session → Session
activated now s = record s {
  status = SessionStatus.active;
  active_at = some now;
  expires_at = now + active_window;
}

unfoldable pub activate : String → ℕ → Option Session → Db → Db
activate session_id now none db = db
activate session_id now (some row) db =
    if row.status == SessionStatus.awaiting_join
    then on_agent row.agent_b_id count_started
        (on_agent row.agent_a_id count_started (on_session session_id (activated now) db))
    else db

-- `_set_session_active`
unfoldable pub set_session_active : String → ℕ → Exec (Unit {0})
unfolding activate
set_session_active session_id now =
    on_store (λ db. activate session_id now (find_session session_id db) db)

-- `_persist_message_count`
unfoldable pub persist_message_count : String → ℕ → Exec (Unit {0})
persist_message_count session_id n =
    on_store (on_session session_id (λ s. record s { message_count = n }))

abbrev pub or_else : Option ℕ → ℕ → ℕ
or_else none d = d
or_else (some n) d = n

abbrev pub closed_row : ℕ → String → Option ℕ → Session → Session
closed_row now reason message_count s = record s {
  status = SessionStatus.closed;
  closed_at = some now;
  close_reason = some reason;
  message_count = or_else message_count s.message_count;
}

-- `_persist_closed`
unfoldable pub persist_closed : String → String → Option ℕ → ℕ → Exec (Unit {0})
persist_closed session_id reason message_count now =
    on_store (on_session session_id (closed_row now reason message_count))
