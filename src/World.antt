-- ===== src/World.antt =====
-- What a request or a relay task of the server can change: the database, as it is committed and as
-- the open transaction sees it, the counters of src/babeltower/metrics.py, and the sessions in
-- the memory of src/babeltower/relay.py with their websockets.
-- A websocket is a number, given to it when it is accepted.
use babeltower.Prelude.{ℕ, String, Option, List, Bool}
use babeltower.Models.{Db}

-- A value in a JSON object; `raw` is any other value.
pub data Value : Type 0 where
  text : String → Value
  time : ℕ → Value
  number : ℕ → Value
  null : Value
  raw : String → Value

abbrev pub Object : Type 0
Object = List (String × Value)

-- What is stored under a key of Redis: JSON, a dict or a list of numbers, until it expires.
pub data Json : Type 0 where
  dict : Object → Json
  numbers : List String → Json

pub record Entry : Type 0 where
  pub value : Json
  pub expires_at : ℕ

-- What the server sends: `{"type": "ready", …}`, an event of its own, a relayed envelope.
pub data Frame : Type 0 where
  ready : String → Frame
  server_event : String → String → Object → Frame
  envelope : Object → Frame

-- relay.py, SessionState. A set or a dict is a list; a task is there or not.
pub record SessionState : Type 0 where
  pub session_id : String
  pub member_ids : List String
  pub pubkeys_by_agent_id : List (String × String)
  pub sockets : List (String × ℕ)
  pub buffers : List (String × List Object)
  pub message_count : ℕ
  pub active_at : Option ℕ
  pub last_message_at : ℕ
  pub monitor_task : Bool
  pub handoff_task : Bool
  pub closed : Bool
  pub active_metric_counted : Bool

pub record Metrics : Type 0 where
  pub intents_created_total : ℕ
  pub searches_total : ℕ
  pub active_sessions : ℕ
  pub messages_relayed_total : ℕ
  pub matches_confirmed_total : ℕ
  pub soft_bans_applied_total : ℕ

-- `states` is `SessionManager._states`, `handoff_tasks` the keys of `_handoff_tasks`. `sent` are
-- the frames that were sent, oldest first, and `hung_up` the sockets that the server closed. A
-- send to a socket in `dead` raises: Starlette's WebSocketDisconnect where the socket is in
-- `disconnects`, its RuntimeError else. `redis` is none where the
-- application has no Redis. `db_suspends` says whether an await of the database suspends
-- the task that awaits (asyncpg does).
pub record World : Type 0 where
  pub store : Db
  pub work : Db
  pub metrics : Metrics
  pub states : List SessionState
  pub handoff_tasks : List String
  pub sent : List (ℕ × Frame)
  pub hung_up : List ℕ
  pub dead : List ℕ
  pub disconnects : List ℕ
  pub redis : Option (List (String × Entry))
  pub db_suspends : Bool
