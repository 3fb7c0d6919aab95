-- ===== src/Register.antt =====
-- src/babeltower/routes/register.py: registering an agent with a GitHub account. The state of a
-- registration is a dict in Redis under its token. A time is written to JSON and read back as it is,
-- in whole seconds. PostgreSQL's advisory lock makes callbacks of one GitHub user wait for each other:
-- calls run one after the other here.
pub mod Routes
pub mod Complete
pub mod Cap
use Prim.Native.Nat.{◌/◌}
use babeltower.Prelude.{
  ℕ, ◌+◌, ◌*◌, String, ◌<>◌, Option, none, some, Bool, true, false, ◌&&◌, ◌||◌, not, List, [], ◌∷◌,
  ◌++◌, if◌then◌else◌, ◌==◌, ◌!=◌, nat_eq, string_eq, leb, ltb, count, lookup, insert,
}
use babeltower.Models.{Db, Agent, AgentStatus, agent_status_eq, seconds}
use babeltower.World.{World, Object, Value, Json, Entry}
use babeltower.Exec.{
  Exec, Result, Response, reply, error_response, ok, err, http, integrity_error, key_error,
  type_error, attribute_error, pure, raise, query, execute, commit, ◌>>=◌, ◌>>◌,
}
use babeltower.Crypto.{CryptoLib, verify}
use babeltower.Redis.{redis_get, redis_setex}
use babeltower.GithubOauth.{HttpClient, Settings, build_oauth_url, exchange_code, get_user_id}

-- REGISTRATION_TOKEN_TTL_SECONDS
abbrev pub registration_ttl : ℕ
registration_ttl = 600

-- `_redis_key`
abbrev pub redis_key : String → String
redis_key token = "regtok:" <> token

-- `_utc_now_iso`: the time without its microseconds
abbrev pub whole_seconds : ℕ → ℕ
whole_seconds now = seconds (now / 1_000_000)

-- An agent that counts: its status is neither deleted nor hard_banned.
abbrev pub is_live_of : ℕ → Agent → Bool
is_live_of github_user_id a = elim a.github_user_id [
  | none ↦ false
  | some g ↦
      g == github_user_id
      && not (a.status == AgentStatus.deleted || a.status == AgentStatus.hard_banned)
]

unfoldable pub count_active_agents_for_github : ℕ → Db → ℕ
unfolding count
count_active_agents_for_github github_user_id db = count (is_live_of github_user_id) db.agents

unfoldable pub new_agent : String → String → ℕ → ℕ → Agent
new_agent id pubkey github_user_id now = record {
  id = id;
  pubkey = pubkey;
  github_user_id = some github_user_id;
  created_at = now;
  last_seen_at = none;
  status = AgentStatus.active;
  soft_ban_lifts_at = none;
  intents_created_total = 0;
  connection_requests_sent_total = 0;
  connection_requests_received_total = 0;
  connection_requests_accepted_total = 0;
  sessions_started_total = 0;
  matches_confirmed_total = 0;
  blocks_received_total = 0;
}

abbrev pub add_agent : Agent → Db → Db
add_agent a db = record db { agents = db.agents ++ a ∷ [] }

-- Is there an agent with this key already? `unique=True` of `Agent.pubkey`.
unfoldable pub has_pubkey : String → Db → Bool
unfolding count
has_pubkey pubkey db = ltb 0 (count (λ a. a.pubkey == pubkey) db.agents)

-- The flush of the new row violates the unique key, or it is committed.
unfoldable pub create_registered_agent : String → String → ℕ → ℕ → Exec (Unit {0})
unfolding has_pubkey new_agent
create_registered_agent id agent_pubkey github_user_id now = do
  taken ← query (has_pubkey agent_pubkey)
  if taken
      then raise integrity_error
      else (do execute (add_agent (new_agent id agent_pubkey github_user_id now)); commit)

-- `stored[key]`
abbrev pub value_or_error : Option Value → Exec Value
value_or_error none = raise key_error
value_or_error (some v) = pure v

abbrev pub item : String → Json → Exec Value
item key (Json.dict o) = value_or_error (lookup key o)
item key (Json.numbers ns) = raise type_error

-- A value that is used as a text, and one that is used as a time.
abbrev pub as_text : Value → Exec String
as_text (Value.text t) = pure t
as_text v = raise type_error

abbrev pub as_time : Value → Exec ℕ
as_time (Value.time t) = pure t
as_time v = raise attribute_error

abbrev pub updated : Object → Object → Object
updated o [] = o
updated o ((k, v) ∷ rest) = updated (insert k v o) rest

-- `stored.update({...})` and the write to Redis
unfoldable pub store_state : String → Json → Object → ℕ → Exec (Unit {0})
unfolding insert
store_state state (Json.dict o) changes now =
    redis_setex (redis_key state) registration_ttl (Json.dict (updated o changes)) now
store_state state (Json.numbers ns) changes now = raise attribute_error

abbrev pub lift_result : {A : Type 0} → Result A → Exec A
lift_result r w = (r, w)

pub record RegistrationInit : Type 0 where
  pub registration_token : String
  pub github_oauth_url : String
  pub expires_in : ℕ

pub record RegistrationStatus : Type 0 where
  pub status : String
  pub agent_pubkey : Option String
  pub registered_at : Option ℕ
  pub reason : Option Value

unfoldable pub pending_state : String → String → ℕ → Object
pending_state token agent_pubkey now =
    ("status", Value.text "pending")
    ∷ ("agent_pubkey", Value.text agent_pubkey)
    ∷ ("github_oauth_state", Value.text token)
    ∷ ("created_at", Value.time (whole_seconds now))
    ∷ []

abbrev pub failed_changes : Object
failed_changes =
    ("status", Value.text "failed") ∷ ("reason", Value.text "github_account_at_agent_limit") ∷ []

abbrev pub complete_changes : ℕ → ℕ → Object
complete_changes github_user_id now =
    ("status", Value.text "complete")
    ∷ ("github_user_id", Value.number github_user_id)
    ∷ ("registered_at", Value.time (whole_seconds now))
    ∷ []

-- `value == text`
abbrev pub is_text : String → Value → Bool
is_text t (Value.text u) = u == t
is_text t v = false

-- `stored.get("reason")`
abbrev pub get_item : String → Json → Exec (Option Value)
get_item key (Json.dict o) = pure (lookup key o)
get_item key (Json.numbers ns) = raise attribute_error

complete_status : Json → Exec RegistrationStatus
unfolding lookup
complete_status stored = do
  agent_pubkey ← item "agent_pubkey" stored
  text ← as_text agent_pubkey
  registered_at ← item "registered_at" stored
  time ← as_time registered_at
  pure (record {
    status = "complete";
    agent_pubkey = some text;
    registered_at = some time;
    reason = none;
  })

failed_status : Json → Exec RegistrationStatus
unfolding lookup
failed_status stored = do
  reason ← get_item "reason" stored
  pure (record { status = "failed"; agent_pubkey = none; registered_at = none; reason = reason })

-- What the status route says of a stored state, by its status.
unfoldable pub status_of : Json → Value → Exec RegistrationStatus
unfolding complete_status failed_status
status_of stored status =
    if is_text "complete" status
    then complete_status stored
    else if is_text "failed" status
    then failed_status stored
    else pure
        (record { status = "pending"; agent_pubkey = none; registered_at = none; reason = none })
