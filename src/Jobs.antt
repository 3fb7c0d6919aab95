-- ===== src/Jobs.antt =====
-- src/babeltower/jobs.py: `run_maintenance`, the job that runs every minute.
pub mod Awake
pub mod Deadlines
use babeltower.Prelude.{
  ℕ, ◌-◌, String, none, some, Bool, ◌&&◌, ◌||◌, List, ◌==◌, string_eq, leb, ltb, is_none, column_le,
  column_lt, column_ge, count, update_where,
}
use babeltower.Models.{
  Db, Agent, Intent, ConnectionRequest, Session, AgentStatus, IntentStatus, RequestStatus,
  SessionStatus, agent_status_eq, intent_status_eq, request_status_eq, session_status_eq, minutes,
}
use babeltower.Exec.{Exec, execute, commit, ◌>>◌}
use babeltower.Sessions.{ended}

abbrev pub cutoff : ℕ → ℕ
cutoff now = now - minutes 5

-- `agent_id IN (SELECT id FROM agents WHERE p)`
unfoldable pub in_agents : (Agent → Bool) → String → List Agent → Bool
unfolding count
in_agents p agent_id agents = ltb 0 (count (λ a. a.id == agent_id && p a) agents)

abbrev pub is_inactive : ℕ → Agent → Bool
is_inactive now a = column_lt a.last_seen_at (cutoff now) || is_none a.last_seen_at

abbrev pub is_present : ℕ → Agent → Bool
is_present now a = column_ge a.last_seen_at (cutoff now)

abbrev pub ban_is_over : ℕ → Agent → Bool
ban_is_over now a = a.status == AgentStatus.soft_banned && column_le a.soft_ban_lifts_at now

abbrev pub lifted : Agent → Agent
lifted a = record a { status = AgentStatus.active; soft_ban_lifts_at = none }

unfoldable pub lift_bans : ℕ → List Agent → List Agent
unfolding update_where
lift_bans now = update_where (ban_is_over now) lifted

abbrev with_status : IntentStatus → Intent → Intent
with_status st i = record i { status = st }

-- Intents of agents that have not polled go to sleep.
abbrev pub falls_asleep : ℕ → List Agent → Intent → Bool
falls_asleep now agents i =
    i.status == IntentStatus.active && in_agents (is_inactive now) i.agent_id agents

-- Intents of agents that have polled wake up.
abbrev pub wakes_up : ℕ → List Agent → Intent → Bool
wakes_up now agents i =
    i.status == IntentStatus.dormant
    && (in_agents (is_present now) i.agent_id agents && ltb now i.expires_at)

abbrev pub runs_out : ℕ → Intent → Bool
runs_out now i =
    (i.status == IntentStatus.active || i.status == IntentStatus.dormant) && leb i.expires_at now

-- The three statements on intents, in the order of the job.
unfoldable pub maintain_intents : ℕ → List Agent → List Intent → List Intent
unfolding update_where
maintain_intents now agents intents =
    update_where (runs_out now) (with_status IntentStatus.expired) (
      update_where (wakes_up now agents) (with_status IntentStatus.active)
        (update_where (falls_asleep now agents) (with_status IntentStatus.dormant) intents))

abbrev pub request_runs_out : ℕ → ConnectionRequest → Bool
request_runs_out now r = r.status == RequestStatus.pending && leb r.expires_at now

abbrev pub expired_request : ℕ → ConnectionRequest → ConnectionRequest
expired_request now r = record r { status = RequestStatus.expired; responded_at = some now }

unfoldable pub maintain_requests : ℕ → List ConnectionRequest → List ConnectionRequest
unfolding update_where
maintain_requests now = update_where (request_runs_out now) (expired_request now)

abbrev pub never_joined : ℕ → Session → Bool
never_joined now s = s.status == SessionStatus.awaiting_join && leb s.expires_at now

abbrev pub out_of_time : ℕ → Session → Bool
out_of_time now s =
    (s.status == SessionStatus.active || s.status == SessionStatus.match_proposed)
    && leb s.expires_at now

abbrev pub handed_off : ℕ → Session → Bool
handed_off now s = s.status == SessionStatus.match_confirmed && leb s.expires_at now

unfoldable pub maintain_sessions : ℕ → List Session → List Session
unfolding update_where
maintain_sessions now sessions = update_where (handed_off now) (ended now "handoff_complete") (
    update_where (out_of_time now) (ended now "time_limit_reached")
      (update_where (never_joined now) (ended now "awaiting_join_expired") sessions))

-- The statements on different tables do not see one another, but those on intents see the agents.
unfoldable pub maintain : ℕ → Db → Db
unfolding lift_bans maintain_intents maintain_requests maintain_sessions
maintain now db = record db {
  agents = lift_bans now db.agents;
  intents = maintain_intents now (lift_bans now db.agents) db.intents;
  connection_requests = maintain_requests now db.connection_requests;
  sessions = maintain_sessions now db.sessions;
}

-- `run_maintenance`
unfoldable pub run_maintenance : ℕ → Exec (Unit {0})
unfolding maintain
run_maintenance now = do execute (maintain now); commit
