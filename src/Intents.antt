-- ===== src/Intents.antt =====
-- src/babeltower/routes/intents.py: creating, reading, deleting and refreshing intents. The embedder
-- is `embed_intent` of embeddings.py.
pub mod Owned
pub mod Limit
pub mod Mine
pub mod Listed
pub mod Refreshed
use Prim.Native.Char.{code}
use babeltower.Prelude.{
  ℕ, suc, ◌+◌, ◌-◌, String, ◌<>◌, Option, none, some, Bool, true, false, ◌&&◌, ◌||◌, List, [], ◌∷◌,
  ◌++◌, if◌then◌else◌, ◌==◌, ◌!=◌, nat_eq, string_eq, leb, find, select, count, update_row,
}
use babeltower.Models.{Db, Agent, Intent, IntentStatus, intent_status_eq, days}
use babeltower.World.{Metrics}
use babeltower.Exec.{Exec, Result, ok, pure, query, execute, commit, on_metrics, ◌>>=◌, ◌>>◌}
use babeltower.Crypto.{CryptoLib}
use babeltower.Embeddings.{vector_text, embed_intent}
use babeltower.Moderation.{
  Regex, scan_intent_text, count_intents_created_since, check_and_apply_soft_ban,
}

-- `[a-z0-9-]`
abbrev pub is_slug_code : ℕ → Bool
is_slug_code c = (leb b'a' c && leb c b'z') || ((leb b'0' c && leb c b'9') || c == b'-')

unfoldable pub all_slug : String → Bool
all_slug String.[] = true
all_slug (String.◌∷◌ c s) = is_slug_code (code c) && all_slug s

unfoldable pub char_count : String → ℕ
char_count String.[] = 0
char_count (String.◌∷◌ c s) = suc (char_count s)

-- `_is_valid_match_type`: a full match of `[a-z0-9-]{1,64}`
unfoldable pub is_valid_match_type : String → Bool
unfolding all_slug char_count
is_valid_match_type s = all_slug s && (leb 1 (char_count s) && leb (char_count s) 64)

-- A field that is absent has its default value here already.
pub record IntentCreateRequest : Type 0 where
  pub match_type : String
  pub seeking : String
  pub offering : String
  pub constraints : String
  pub filters : String
  pub ttl_days : ℕ

-- What `create_intent` returns: the row, or a JSONResponse with an error code; `content_blocked`
-- carries the violations.
pub data Created : Type 0 where
  created : Intent → Created
  refused : ℕ → String → Created
  content_blocked : List String → Created

abbrev pub is_active_of : String → Intent → Bool
is_active_of agent_id i = i.agent_id == agent_id && i.status == IntentStatus.active

unfoldable pub count_active_intents : String → Db → ℕ
unfolding count
count_active_intents agent_id db = count (is_active_of agent_id) db.intents

unfoldable pub new_intent : String → String → IntentCreateRequest → String → ℕ → Intent
new_intent id agent_id body embedding created_at = record {
  id = id;
  agent_id = agent_id;
  match_type = body.match_type;
  seeking = body.seeking;
  offering = body.offering;
  constraints = body.constraints;
  filters = body.filters;
  embedding = embedding;
  ttl_days = body.ttl_days;
  created_at = created_at;
  expires_at = created_at + days body.ttl_days;
  status = IntentStatus.active;
}

abbrev count_created : Agent → Agent
count_created a = record a { intents_created_total = a.intents_created_total + 1 }

unfoldable pub add_intent : Intent → Db → Db
unfolding update_row
add_intent i db = record db {
  agents = update_row (λ a. a.id == i.agent_id) count_created db.agents;
  intents = db.intents ++ i ∷ [];
}

-- `persist_intent`
unfoldable pub persist_intent : Intent → Exec (Unit {0})
unfolding add_intent
persist_intent i = do execute (add_intent i); commit

abbrev inc_intents_created : Metrics → Metrics
inc_intents_created m = record m { intents_created_total = m.intents_created_total + 1 }

-- `intents_created_total.inc()`
unfoldable pub count_created_intent : Exec (Unit {0})
count_created_intent = on_metrics inc_intents_created

module _ (re : Regex) (lib : CryptoLib) (voyage : String → String → ℕ → Result (List String)) where
  unfoldable pub store_intent : String → String → Agent → IntentCreateRequest → ℕ → Exec Created
  store_intent id event_id agent body now = do
    embedding ← embed_intent lib voyage body.seeking body.offering body.constraints "document" now
    let intent = new_intent id agent.id body (vector_text embedding) now
    persist_intent intent
    check_and_apply_soft_ban event_id agent.id now
    commit
    count_created_intent
    pure (created intent)

  -- The handler once the text is accepted.
  unfoldable pub limit_intents : String → String → Agent → IntentCreateRequest → ℕ → Exec Created
  limit_intents id event_id agent body now = do
    active_count ← query (count_active_intents agent.id)
    daily_count ← query (count_intents_created_since agent.id (now - days 1))
    if leb 10 active_count
        then pure (refused 409 "intent_limit_reached")
        else if leb 30 daily_count
        then pure (refused 429 "rate_limited")
        else store_intent id event_id agent body now

  unfoldable pub scanned :
      String → String → Agent → IntentCreateRequest → ℕ → List String → Exec Created
  scanned id event_id agent body now [] = limit_intents id event_id agent body now
  scanned id event_id agent body now (v ∷ vs) = pure (content_blocked (v ∷ vs))

  -- POST /intents; `id` and `event_id` are the ids of the new intent and of a new abuse event.
  unfoldable pub create_intent : String → String → Agent → IntentCreateRequest → ℕ → Exec Created
  create_intent id event_id agent body now =
      if is_valid_match_type body.match_type
      then scanned id event_id agent body now
          (scan_intent_text re (body.seeking <> "\n" <> body.offering <> "\n" <> body.constraints))
      else pure (refused 400 "invalid_match_type")
