-- ===== src/Agents.antt =====
-- src/babeltower/routes/agents.py: an agent deletes its account.
pub mod Erasure
pub mod Shut
use babeltower.Prelude.{
  ℕ, String, none, Bool, ◌&&◌, ◌||◌, ◌==◌, ◌!=◌, string_eq, update_where, update_row, delete_where,
}
use babeltower.Models.{
  Db, Agent, Intent, Session, Block, AgentStatus, IntentStatus, SessionStatus, intent_status_eq,
  session_status_eq,
}
use babeltower.Exec.{Exec, execute, commit, ◌>>◌}
use babeltower.Sessions.{ended}

abbrev pub is_member : String → Session → Bool
is_member agent_id s = s.agent_a_id == agent_id || s.agent_b_id == agent_id

abbrev pub touches : String → Block → Bool
touches agent_id b = b.blocker_id == agent_id || b.blocked_id == agent_id

abbrev deleted_intent : Intent → Intent
deleted_intent i = record i { status = IntentStatus.deleted }

abbrev pub erased : Agent → Agent
erased a = record a {
  github_user_id = none;
  last_seen_at = none;
  status = AgentStatus.deleted;
  soft_ban_lifts_at = none;
  intents_created_total = 0;
  connection_requests_sent_total = 0;
  connection_requests_received_total = 0;
  connection_requests_accepted_total = 0;
  sessions_started_total = 0;
  matches_confirmed_total = 0;
  blocks_received_total = 0;
}

unfoldable pub delete_account_db : String → ℕ → Db → Db
unfolding update_where update_row delete_where
delete_account_db agent_id deleted_at db = record db {
  intents =
      update_where (λ i. i.agent_id == agent_id && i.status != IntentStatus.deleted) deleted_intent
        db.intents;
  blocks = delete_where (touches agent_id) db.blocks;
  sessions =
      update_where (λ s. is_member agent_id s && s.status != SessionStatus.closed)
        (ended deleted_at "account_deleted") db.sessions;
  agents = update_row (λ a. a.id == agent_id) erased db.agents;
}

-- `delete_agent_account`, which is all of DELETE /agent
unfoldable pub delete_agent : Agent → ℕ → Exec (Unit {0})
unfolding delete_account_db
delete_agent agent now = do execute (delete_account_db agent.id now); commit
