-- ===== src/Intents/Mine.antt =====
-- src/babeltower/routes/intents.py: GET /intents/mine.
use babeltower.Prelude.{String, Bool, ◌&&◌, ◌||◌, List, map, ◌==◌, string_eq, select, sort_by, leb}
use babeltower.Models.{Db, Agent, Intent, IntentStatus, intent_status_eq}
use babeltower.Exec.{Exec, query}
use babeltower.Schemas.{OwnedIntentsResponse}
use babeltower.Inbox.{intent_response}

abbrev pub is_reusable_of : String → Intent → Bool
is_reusable_of agent_id i =
    i.agent_id == agent_id && (i.status == IntentStatus.active || i.status == IntentStatus.dormant)

-- `list_reusable_owned_intents`: the newest first
unfoldable pub list_reusable_owned_intents : String → Db → List Intent
unfolding select sort_by
list_reusable_owned_intents agent_id db =
    sort_by (λ (i j : Intent). leb j.created_at i.created_at)
      (select (is_reusable_of agent_id) db.intents)

-- GET /intents/mine
unfoldable pub get_my_intents : Agent → Exec OwnedIntentsResponse
unfolding list_reusable_owned_intents
get_my_intents agent = query λ db. record {
  intents = map (λ i. intent_response i agent.pubkey) (list_reusable_owned_intents agent.id db);
}
