-- ===== src/Intents/Listed.antt =====
-- A new intent, POST /intents of src/babeltower/routes/intents.py, in the list of GET /intents/mine.
use babeltower.Prelude.{ℕ, ◌+◌, String, ◌≡◌, ◌⊎◌, List, string_eq, In}
use babeltower.Models.{Db, Agent, Intent, IntentStatus, intent_status_eq, days}
use babeltower.World.{World}
use babeltower.Exec.{Result, ok, run}
use babeltower.Crypto.{CryptoLib}
use babeltower.Moderation.{Regex, sleep}
use babeltower.Schemas.{IntentResponse, OwnedIntentsResponse}
use babeltower.Intents.{IntentCreateRequest, new_intent, Created, created}
use babeltower.Intents.Mine.{get_my_intents}

-- The row of an intent, as it was made or put to sleep since.
abbrev pub IsKept : Intent → Db → Type 0
IsKept i db = In i db.intents ⊎ In (sleep i) db.intents

-- The row has what the body says: active from now on, for as many days as the body wants.
abbrev pub IsOfBody : Agent → String → IntentCreateRequest → ℕ → Intent → Type 0
IsOfBody agent id body now i =
    (embedding : String) × (i ≡ (record {
      id = id;
      agent_id = agent.id;
      match_type = body.match_type;
      seeking = body.seeking;
      offering = body.offering;
      constraints = body.constraints;
      filters = body.filters;
      ttl_days = body.ttl_days;
      created_at = now;
      expires_at = now + days body.ttl_days;
      status = IntentStatus.active;
      embedding = embedding;
    }))

-- How the agent finds it, with a status.
abbrev pub as_listed : Agent → String → IntentCreateRequest → ℕ → IntentStatus → IntentResponse
as_listed agent id body now status = record {
  intent_id = id;
  agent_pubkey = agent.pubkey;
  match_type = body.match_type;
  seeking = body.seeking;
  offering = body.offering;
  constraints = body.constraints;
  filters = body.filters;
  ttl_days = body.ttl_days;
  created_at = now;
  expires_at = now + days body.ttl_days;
  status = status;
}

-- The row is of the body, and the agent finds it among its own.
abbrev pub IsListed : Agent → String → IntentCreateRequest → ℕ → Intent → World → Type 0
IsListed agent id body now i w =
    IsOfBody agent id body now i
    × ((list : OwnedIntentsResponse) × ((run (get_my_intents agent) w).0 ≡ ok list)
        × (In (as_listed agent id body now IntentStatus.active) list.intents
            ⊎ In (as_listed agent id body now IntentStatus.dormant) list.intents))

-- What the end of the handler leaves of a new row.
IsMade : Intent → Intent → Db → Type 0
IsMade n i db = (i ≡ n) × IsKept n db

module _ (re : Regex) (lib : CryptoLib) (voyage : String → String → ℕ → Result (List String))
    (id event_id : String) (agent : Agent) (body : IntentCreateRequest) (now : ℕ) (i : Intent) where
  -- What a run that answers with `i` leaves.
  abbrev Leaves : Result Created × World → Type 0
  Leaves q =
      q.0 ≡ ok (created i)
      → (embedding : String) × IsMade (new_intent id agent.id body embedding now) i q.1.store
