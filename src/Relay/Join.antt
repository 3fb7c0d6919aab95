-- ===== src/Relay/Join.antt =====
-- relay.py: `_join`, `_load_pubkeys`, `_disconnect`.
use babeltower.Prelude.{
  ℕ, ◌+◌, String, Option, none, some, Bool, true, false, ◌&&◌, ◌||◌, List, [], ◌∷◌, ◌++◌, map,
  if◌then◌else◌, ◌==◌, ◌!=◌, nat_eq, string_eq, lookup, insert, delete, select, is_none,
}
use babeltower.Models.{Db, Session}
use babeltower.World.{SessionState, Metrics, Object}
use babeltower.Exec.{Exec, ok, pure, on_metrics, ◌>>=◌, ◌>>◌}
use babeltower.Relay.Sockets.{safe_close, get_state, on_state}
use babeltower.Relay.Persist.{set_session_active}

-- A set of two members.
abbrev pub members : String → String → List String
members a b = if a == b then a ∷ [] else a ∷ b ∷ []

-- `_load_pubkeys`
unfoldable pub load_pubkeys : Session → Db → List (String × String)
unfolding select
load_pubkeys row db =
    map (λ a. (a.id, a.pubkey))
      (select (λ a. a.id == row.agent_a_id || a.id == row.agent_b_id) db.agents)

unfoldable pub new_state : Session → ℕ → Db → SessionState
unfolding load_pubkeys
new_state row now db = record {
  session_id = row.id;
  member_ids = members row.agent_a_id row.agent_b_id;
  pubkeys_by_agent_id = load_pubkeys row db;
  sockets = [];
  buffers = [];
  message_count = row.message_count;
  active_at = none;
  last_message_at = now;
  monitor_task = false;
  handoff_task = false;
  closed = false;
  active_metric_counted = false;
}

-- `self._states.get(...)`, or a new state
unfoldable pub state_or_new : Session → ℕ → Option SessionState → Exec SessionState
unfolding new_state
state_or_new row now (some s) w = (ok s, w)
state_or_new row now none w =
    let s = new_state row now w.store in (ok s, record w { states = w.states ++ s ∷ [] })

unfoldable pub ensure_state : Session → ℕ → Exec SessionState
ensure_state row now w = state_or_new row now (get_state row.id w) w

-- `state.member_ids.issubset(state.sockets.keys())`
unfoldable pub all_joined : List String → List (String × ℕ) → Bool
unfolding lookup
all_joined [] sockets = true
all_joined (m ∷ ms) sockets =
    (elim (lookup m sockets) [ none ↦ false | some s ↦ true ]) && all_joined ms sockets

-- `state.buffers.setdefault(agent.id, [])`, by the buffer that is there
abbrev pub set_default : String → Option (List Object) → SessionState → SessionState
set_default agent_id none s = record s { buffers = insert agent_id [] s.buffers }
set_default agent_id (some b) s = s

unfoldable pub joined : String → ℕ → SessionState → SessionState
unfolding lookup insert
joined agent_id socket s =
    set_default agent_id (lookup agent_id s.buffers)
      (record s { sockets = insert agent_id socket s.sockets })

abbrev pub became_active : ℕ → SessionState → SessionState
became_active now s = record s {
  active_at = some now;
  last_message_at = now;
  active_metric_counted = true;
  monitor_task = true;
}

abbrev inc_active_sessions : Metrics → Metrics
inc_active_sessions m = record m { active_sessions = m.active_sessions + 1 }

-- `active_sessions.inc()`
unfoldable pub count_active : Exec (Unit {0})
count_active = on_metrics inc_active_sessions

-- The old socket of the same agent is closed.
unfoldable pub replace_socket : Option ℕ → ℕ → Exec (Unit {0})
replace_socket none socket = pure tt
replace_socket (some old) socket = if old != socket then safe_close old else pure tt

unfoldable pub start_if_joined : SessionState → ℕ → Exec (Unit {0})
start_if_joined s now =
    if all_joined s.member_ids s.sockets && is_none s.active_at
    then (do
      set_session_active s.session_id now
      count_active
      on_state s.session_id (became_active now))
    else pure tt

-- `_join`
unfoldable pub join : ℕ → Session → String → ℕ → Exec (Unit {0})
join socket row agent_id now = do
  s ← ensure_state row now
  replace_socket (lookup agent_id s.sockets) socket
  on_state row.id (joined agent_id socket)
  start_if_joined (joined agent_id socket s) now

-- `_disconnect`
unfoldable pub disconnect : String → String → ℕ → Exec (Unit {0})
unfolding lookup delete
disconnect session_id agent_id socket = on_state session_id λ s. elim (lookup agent_id s.sockets) [
  | none ↦ s
  | some current ↦ if current == socket then record s { sockets = delete agent_id s.sockets } else s
]
