-- ===== src/Intents/Owned.antt =====
-- src/babeltower/routes/intents.py: reading, deleting and refreshing an intent. Of a response the
-- row is kept and the public key that goes with it.
use babeltower.Prelude.{
  ℕ, ◌+◌, String, Option, none, some, Bool, ◌&&◌, ◌||◌, if◌then◌else◌, ◌==◌, string_eq, find,
  select, update_row, map,
}
use babeltower.Models.{
  Db, Agent, Intent, ConnectionRequest, IntentStatus, RequestStatus, intent_status_eq,
  request_status_eq, days,
}
use babeltower.Exec.{
  Exec, http, pure, raise, query, execute, commit, ◌>>=◌, ◌>>◌, scalar_one_or_none, Response, reply,
  error_response,
}

-- The condition of the query in `get_visible_intent`.
abbrev pub shows_intent : String → String → ConnectionRequest → Bool
shows_intent intent_id agent_id r =
    (r.target_intent_id == intent_id || r.from_intent_id == intent_id)
    && ((r.from_agent_id == agent_id || r.to_agent_id == agent_id)
        && (r.status == RequestStatus.pending || r.status == RequestStatus.accepted))

abbrev if_found : {A : Type 0} → Intent → Option A → Option Intent
if_found i none = none
if_found i (some r) = some i

unfoldable pub visible_loaded : String → Option Intent → Exec (Option Intent)
unfolding select scalar_one_or_none
visible_loaded agent_id none = pure none
visible_loaded agent_id (some i) = if i.agent_id == agent_id then pure (some i) else (do
  rows ← query (λ db. select (shows_intent i.id agent_id) db.connection_requests)
  found ← scalar_one_or_none rows
  pure (if_found i found))

-- `get_visible_intent`
unfoldable pub get_visible_intent : String → String → Exec (Option Intent)
unfolding visible_loaded find
get_visible_intent agent_id intent_id = do
  i ← query (λ db. find (λ i. i.id == intent_id) db.intents)
  visible_loaded agent_id i

abbrev or_empty : Option String → String
or_empty none = ""
or_empty (some s) = s

-- `get_agent_pubkey_by_id(...) or ""`
unfoldable pub pubkey_of : String → Exec String
unfolding select scalar_one_or_none
pubkey_of agent_id = do
  rows ← query (λ db. map (λ a. a.pubkey) (select (λ a. a.id == agent_id) db.agents))
  found ← scalar_one_or_none rows
  pure (or_empty found)

unfoldable pub show_intent : Agent → Option Intent → Exec (Intent × String)
unfolding pubkey_of
show_intent agent none = raise (http 404 "intent not found")
show_intent agent (some i) =
    if i.agent_id == agent.id
    then pure (i, agent.pubkey)
    else (do pubkey ← pubkey_of i.agent_id; pure (i, pubkey))

-- GET /intents/{intent_id}
unfoldable pub get_intent : String → Agent → Exec (Intent × String)
unfolding show_intent get_visible_intent
get_intent intent_id agent = do i ← get_visible_intent agent.id intent_id; show_intent agent i

-- `get_owned_intent`
unfoldable pub get_owned_intent : String → String → Exec (Option Intent)
unfolding find
get_owned_intent agent_id intent_id =
    query λ db. find (λ i. i.id == intent_id && i.agent_id == agent_id) db.intents

abbrev pub on_intent : String → (Intent → Intent) → Db → Db
on_intent id f db = record db { intents = update_row (λ i. i.id == id) f db.intents }

abbrev pub soft_deleted : Intent → Intent
soft_deleted i = record i { status = IntentStatus.deleted }

unfoldable pub delete_loaded : Option Intent → Exec (Unit {0})
unfolding update_row
delete_loaded none = raise (http 404 "intent not found")
delete_loaded (some i) = do execute (on_intent i.id soft_deleted); commit

-- DELETE /intents/{intent_id}
unfoldable pub delete_intent : String → Agent → Exec (Unit {0})
unfolding delete_loaded get_owned_intent
delete_intent intent_id agent = do i ← get_owned_intent agent.id intent_id; delete_loaded i

-- `refresh_owned_intent`
abbrev pub refreshed : ℕ → Intent → Intent
refreshed now i = record i {
  status = if i.status == IntentStatus.dormant then IntentStatus.active else i.status;
  expires_at = now + days i.ttl_days;
}

unfoldable pub refresh_loaded : ℕ → Option Intent → Exec (Response Intent)
unfolding update_row
refresh_loaded now none = raise (http 404 "intent not found")
refresh_loaded now (some i) =
    if i.status == IntentStatus.expired
      || (i.status == IntentStatus.matched || i.status == IntentStatus.deleted)
    then pure (error_response 409 "intent_not_refreshable")
    else (do execute (on_intent i.id (refreshed now)); commit; pure (reply (refreshed now i)))

-- POST /intents/{intent_id}/refresh
unfoldable pub refresh_intent : String → Agent → ℕ → Exec (Response Intent)
unfolding refresh_loaded get_owned_intent
refresh_intent intent_id agent now = do
  i ← get_owned_intent agent.id intent_id
  refresh_loaded now i
