-- ===== src/Moderation.antt =====
-- src/babeltower/moderation.py: soft bans, and the scan of an intent's text.
pub mod Bans
pub mod Due
use babeltower.Prelude.{
  ℕ, ◌+◌, ◌-◌, ◌*◌, max, String, Option, none, some, Bool, true, false, ◌&&◌, ◌||◌, List, [], ◌∷◌,
  ◌++◌, if◌then◌else◌, ◌==◌, string_eq, leb, ltb, find, count, update_where, update_row, column_ge,
}
use babeltower.Models.{
  Db, Agent, Intent, AbuseEvent, AgentStatus, IntentStatus, RequestStatus, agent_status_eq,
  intent_status_eq, request_status_eq, days,
}
use babeltower.World.{Metrics}
use babeltower.Exec.{Exec, pure, query, execute, on_metrics, ◌>>=◌, ◌>>◌}

unfoldable pub count_blocks_received_since : String → ℕ → Db → ℕ
unfolding count
count_blocks_received_since agent_id since db =
    count (λ b. b.blocked_id == agent_id && leb since b.created_at) db.blocks

unfoldable pub count_connections_sent_since : String → ℕ → Db → ℕ
unfolding count
count_connections_sent_since agent_id since db =
    count (λ r. r.from_agent_id == agent_id && leb since r.created_at) db.connection_requests

unfoldable pub count_connections_sent_accepted_since : String → ℕ → Db → ℕ
unfolding count
count_connections_sent_accepted_since agent_id since db =
    count
      (λ r.
        r.from_agent_id == agent_id
        && (r.status == RequestStatus.accepted && column_ge r.responded_at since))
      db.connection_requests

unfoldable pub count_intents_created_since : String → ℕ → Db → ℕ
unfolding count
count_intents_created_since agent_id since db =
    count (λ i. i.agent_id == agent_id && leb since i.created_at) db.intents

abbrev pub banned_until : ℕ → Agent → Agent
banned_until lifts a = record a { status = AgentStatus.soft_banned; soft_ban_lifts_at = some lifts }

abbrev pub is_active_intent_of : String → Intent → Bool
is_active_intent_of agent_id i = i.agent_id == agent_id && i.status == IntentStatus.active

abbrev pub sleep : Intent → Intent
sleep i = record i { status = IntentStatus.dormant }

abbrev inc_soft_bans : Metrics → Metrics
inc_soft_bans m = record m { soft_bans_applied_total = m.soft_bans_applied_total + 1 }

-- The reason for a ban, and the counts that show it.
abbrev pub Reason : Type 0
Reason = String × List (String × ℕ)

abbrev soft_ban_event : String → String → Reason → ℕ → AbuseEvent
soft_ban_event event_id agent_id reason now = record {
  id = event_id;
  agent_id = agent_id;
  event_type = "soft_ban_applied";
  details = reason;
  created_at = now;
}

unfoldable pub ban_db : String → String → Reason → ℕ → Db → Db
unfolding update_row update_where
ban_db event_id agent_id reason now db = record db {
  agents = update_row (λ a. a.id == agent_id) (banned_until (now + days 7)) db.agents;
  abuse_events = db.abuse_events ++ soft_ban_event event_id agent_id reason now ∷ [];
  intents = update_where (is_active_intent_of agent_id) sleep db.intents;
}

-- `event_id` is the id that the new row gets.
unfoldable pub apply_soft_ban : String → Agent → Reason → ℕ → Exec Bool
unfolding ban_db
apply_soft_ban event_id agent reason now =
    if agent.status == AgentStatus.soft_banned
    then pure false
    else (do execute (ban_db event_id agent.id reason now); on_metrics inc_soft_bans; pure true)

-- `sent_7d / denominator > 50` as real numbers, with denominator = max(accepted_7d, 1)
unfoldable pub is_spam : ℕ → ℕ → Bool
is_spam sent accepted = leb 50 sent && ltb (50 * max accepted 1) sent

-- The tests on the counts: blocks received, requests sent and accepted, intents created.
unfoldable pub reason_of : ℕ → ℕ → ℕ → ℕ → Option Reason
unfolding is_spam
reason_of blocks sent accepted intents =
    if ltb 5 blocks
    then some ("blocks_received", ("blocks_received_7d", blocks) ∷ [])
    else if is_spam sent accepted
    then some (
      "connection_spam",
      ("connection_requests_sent_7d", sent) ∷ ("connection_requests_accepted_7d", accepted) ∷ [],
    )
    else if ltb 100 intents
    then some ("intent_creation_burst", ("intents_created_24h", intents) ∷ [])
    else none

-- The reason for a soft ban of an agent, if there is one.
unfoldable pub ban_reason : String → ℕ → Db → Option Reason
unfolding reason_of count_blocks_received_since count_connections_sent_since
    count_connections_sent_accepted_since count_intents_created_since
ban_reason agent_id now db =
    reason_of (count_blocks_received_since agent_id (now - days 7) db)
      (count_connections_sent_since agent_id (now - days 7) db)
      (count_connections_sent_accepted_since agent_id (now - days 7) db)
      (count_intents_created_since agent_id (now - days 1) db)

unfoldable pub ban_if : String → Agent → ℕ → Option Reason → Exec Bool
unfolding apply_soft_ban
ban_if event_id agent now none = pure false
ban_if event_id agent now (some reason) = apply_soft_ban event_id agent reason now

unfoldable pub check_agent : String → ℕ → Option Agent → Exec Bool
unfolding ban_if ban_reason
check_agent event_id now none = pure false
check_agent event_id now (some agent) =
    if agent.status == AgentStatus.soft_banned
      || (agent.status == AgentStatus.hard_banned || agent.status == AgentStatus.deleted)
    then pure false
    else (do reason ← query (ban_reason agent.id now); ban_if event_id agent now reason)

unfoldable pub check_and_apply_soft_ban : String → String → ℕ → Exec Bool
unfolding check_agent find
check_and_apply_soft_ban event_id agent_id now = do
  agent ← query (λ db. find (λ a. a.id == agent_id) db.agents)
  check_agent event_id now agent

-- The four patterns of moderation.py, and what `re` does with them.
pub data Pattern : Type 0 where
  email phone url handle : Pattern

pub record Regex : Type 0 where
  pub search_pattern : Pattern → String → Bool
  pub sub_space : Pattern → String → String

-- `violations.append(name)` if found
abbrev note : Bool → String → List String
note true name = name ∷ []
note false name = []

unfoldable pub scan_intent_text : Regex → String → List String
scan_intent_text re text =
    let has_email = re.search_pattern email text in
    let without_email = if has_email then re.sub_space email text else text in
    let has_handle = re.search_pattern handle text in
    let url_scan_text = if has_handle then re.sub_space handle without_email else without_email in
    note has_email "email"
    ++ (note (re.search_pattern phone text) "phone"
        ++ (note has_handle "handle" ++ note (re.search_pattern url url_scan_text) "url"))
