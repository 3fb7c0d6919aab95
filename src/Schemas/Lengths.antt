-- ===== src/Schemas/Lengths.antt =====
-- The limits of the bodies and what the server tells of them.
use babeltower.Prelude.{ℕ, ◌+◌, ◌≤◌, String, ◌≡◌, true, arith}
use babeltower.Models.{days}
use babeltower.Intents.{IntentCreateRequest, char_count, new_intent}
use babeltower.Schemas.{accepts_intent}
use babeltower.Meta.{server_info}

-- A body for a new intent that passes the schema has texts within the number of characters that
-- GET /server/info tells, and the new intent lives between one day and ninety.
pub accepts_intent-lengths :
    (version id agent_id embedding : String) (body : IntentCreateRequest) (now : ℕ)
    → accepts_intent body ≡ true
    → (char_count body.seeking + char_count body.offering + char_count body.constraints
        ≤ (server_info version).max_intent_chars)
      × (now + days 1 ≤ (new_intent id agent_id body embedding now).expires_at)
      × ((new_intent id agent_id body embedding now).expires_at ≤ now + days 90)
unfolding accepts_intent new_intent
accepts_intent-lengths version id agent_id embedding body now h = ground (arith, h)
