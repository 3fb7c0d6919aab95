-- ===== src/Connections.antt =====
-- src/babeltower/routes/connections.py: connection requests. `now` is the clock's time in the call,
-- and an id that the call makes (`new_id`) is an argument.
pub mod Limit
pub mod Made
pub mod Blocked
pub mod Permitted
pub mod Requested
pub mod Respond
use babeltower.Prelude.{
  ℕ, ◌+◌, ◌-◌, String, Option, none, some, Bool, true, false, ◌&&◌, ◌||◌, List, [], ◌∷◌, ◌++◌, map,
  if◌then◌else◌, ◌==◌, ◌!=◌, string_eq, leb, ltb, find, select, count, update_row, is_none,
}
use babeltower.Models.{
  Db, Agent, Intent, ConnectionRequest, Session, Block, IntentStatus, RequestStatus, SessionStatus,
  intent_status_eq, request_status_eq, hours, days,
}
use babeltower.Exec.{
  Exec, Result, ok, err, http, pure, raise, query, execute, commit, ◌>>=◌, ◌>>◌, scalar_one_or_none,
  Response, reply, error_response,
}
use babeltower.Moderation.{check_and_apply_soft_ban}

abbrev pub request_ttl : ℕ
request_ttl = hours 72

pub record ConnectionCreateRequest : Type 0 where
  pub target_intent_id : String
  pub from_intent_id : String
  pub opening_message : Option String

-- The join of an intent with its agent.
abbrev pub with_agent : Db → Intent → Option (Intent × Agent)
with_agent db i = elim (find (λ a. a.id == i.agent_id) db.agents) [
  | none ↦ none
  | some a ↦ some (i, a)
]

unfoldable pub target_row : String → Db → Option (Intent × Agent)
unfolding find
target_row intent_id db = elim (find (λ i. i.id == intent_id) db.intents) [
  | none ↦ none
  | some i ↦ with_agent db i
]

-- The first query of `load_connection_intents`: the target intent and its agent.
unfoldable pub load_target : String → Exec (Option (Intent × Agent))
unfolding target_row
load_target intent_id = query (target_row intent_id)

-- Its second query: the caller's own intent.
unfoldable pub load_from_intent : String → String → Exec (Option Intent)
unfolding find
load_from_intent intent_id agent_id =
    query λ db. find (λ i. i.id == intent_id && i.agent_id == agent_id) db.intents

unfoldable pub blocks_between : String → String → Db → List Block
unfolding select
blocks_between a_id b_id db =
    select
      (λ b.
        (b.blocker_id == a_id && b.blocked_id == b_id)
        || (b.blocker_id == b_id && b.blocked_id == a_id))
      db.blocks

abbrev pub is_some : {A : Type 0} → Option A → Bool
is_some none = false
is_some (some a) = true

unfoldable pub has_block_between : String → String → Exec Bool
unfolding blocks_between scalar_one_or_none
has_block_between a_id b_id = do
  rows ← query (blocks_between a_id b_id)
  found ← scalar_one_or_none rows
  pure (is_some found)

abbrev pub is_pending_outbound : String → ℕ → ConnectionRequest → Bool
is_pending_outbound agent_id now r =
    r.from_agent_id == agent_id && (r.status == RequestStatus.pending && ltb now r.expires_at)

unfoldable pub count_pending_outbound : String → ℕ → Db → ℕ
unfolding count
count_pending_outbound agent_id now db =
    count (is_pending_outbound agent_id now) db.connection_requests

unfoldable pub count_requests_sent_since : String → ℕ → Db → ℕ
unfolding count
count_requests_sent_since agent_id since db =
    count (λ r. r.from_agent_id == agent_id && leb since r.created_at) db.connection_requests

unfoldable pub new_request :
    String → String → String → ConnectionCreateRequest → ℕ → ConnectionRequest
new_request id from_id to_id body created_at = record {
  id = id;
  from_agent_id = from_id;
  to_agent_id = to_id;
  target_intent_id = body.target_intent_id;
  from_intent_id = body.from_intent_id;
  opening_message = body.opening_message;
  status = RequestStatus.pending;
  created_at = created_at;
  expires_at = created_at + request_ttl;
  responded_at = none;
  rejection_reason = none;
}

abbrev count_sent : Agent → Agent
count_sent a = record a { connection_requests_sent_total = a.connection_requests_sent_total + 1 }

abbrev count_received : Agent → Agent
count_received a = record a {
  connection_requests_received_total = a.connection_requests_received_total + 1;
}

unfoldable pub add_request : ConnectionRequest → Db → Db
unfolding update_row
add_request r db = record db {
  agents =
      update_row (λ a. a.id == r.to_agent_id) count_received
        (update_row (λ a. a.id == r.from_agent_id) count_sent db.agents);
  connection_requests = db.connection_requests ++ r ∷ [];
}

unfoldable pub create_connection_request :
    String → Agent → Agent → ConnectionCreateRequest → ℕ → Exec ConnectionRequest
unfolding add_request new_request
create_connection_request id agent target_agent body created_at = do
  let request = new_request id agent.id target_agent.id body created_at
  execute (add_request request)
  commit
  pure request

-- `create_connection` once both intents are there.
unfoldable pub connect_intents :
    String
    → String
    → Agent
    → Agent
    → ConnectionCreateRequest
    → ℕ
    → Exec (Response ConnectionRequest)
connect_intents id event_id agent target_agent body now =
    if target_agent.id == agent.id then pure (error_response 400 "cannot_connect_to_self") else (do
      blocked ← has_block_between agent.id target_agent.id
      pending ← query (count_pending_outbound agent.id now)
      sent ← query (count_requests_sent_since agent.id (now - days 1))
      if blocked
          then pure (error_response 403 "blocked")
          else if leb 20 pending
          then pure (error_response 409 "connection_request_limit_reached")
          else if leb 50 sent
          then pure (error_response 429 "rate_limited")
          else (do
            request ← create_connection_request id agent target_agent body now
            check_and_apply_soft_ban event_id agent.id now
            commit
            pure (reply request)))

unfoldable pub with_intents :
    String
    → String
    → Agent
    → ConnectionCreateRequest
    → ℕ
    → Option (Intent × Agent)
    → Option Intent
    → Exec (Response ConnectionRequest)
with_intents id event_id agent body now none from_intent =
    raise (http 404 "target intent not found")
with_intents id event_id agent body now (some (target_intent, target_agent)) none =
    if target_intent.status != IntentStatus.active
    then raise (http 404 "target intent not found")
    else raise (http 404 "from intent not found")
with_intents id event_id agent body now (some (target_intent, target_agent)) (some from_intent) =
    if target_intent.status != IntentStatus.active
    then raise (http 404 "target intent not found")
    else if from_intent.status != IntentStatus.active
    then raise (http 404 "from intent not found")
    else connect_intents id event_id agent target_agent body now

-- POST /connect. The reply carries the request's row; `id` and `event_id` are the ids that a new
-- request and a new abuse event get.
unfoldable pub create_connection :
    String → String → Agent → ConnectionCreateRequest → ℕ → Exec (Response ConnectionRequest)
create_connection id event_id agent body now = do
  target ← load_target body.target_intent_id
  from_intent ← load_from_intent body.from_intent_id agent.id
  with_intents id event_id agent body now target from_intent
