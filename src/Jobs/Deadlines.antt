-- ===== src/Jobs/Deadlines.antt =====
-- src/babeltower/jobs.py: what no row is after the maintenance job.
use babeltower.Prelude.{
  ℕ, ◌≡◌, false, List, [], ◌∷◌, arith, All, All-mono, ◌==◌, Bool, true, refl, String, count_mono,
  string_eq, ◌!=◌, leb, column_le, ◌&&◌, not,
}
use babeltower.Models.{
  Db, Agent, AgentStatus, agent_status_eq, Intent, ConnectionRequest, Session, IntentStatus,
  RequestStatus, SessionStatus, intent_status_eq, request_status_eq, session_status_eq,
}
use babeltower.Jobs.{
  maintain, maintain_intents, maintain_requests, maintain_sessions, lift_bans, in_agents,
  is_inactive, is_present, runs_out,
}

-- A session that is not closed has its deadline ahead.
abbrev pub IsTimely : ℕ → Session → Type 0
IsTimely now s = s.status != SessionStatus.closed && leb s.expires_at now ≡ false

-- A pending request has its deadline ahead.
abbrev pub IsFresh : ℕ → ConnectionRequest → Type 0
IsFresh now r = r.status == RequestStatus.pending && leb r.expires_at now ≡ false

-- An active or dormant intent has its deadline ahead; an active one is not of an agent that has been
-- away, unless another with its id has polled; a dormant one is of no active agent that has
-- polled.
pub record IsSettled (now : ℕ) (agents : List Agent) (i : Intent) : Type 0 where
  pub ahead : runs_out now i ≡ false
  pub awake :
      i.status == IntentStatus.active
        && (in_agents (is_inactive now) i.agent_id agents
            && not (in_agents (is_present now) i.agent_id agents))
      ≡ false
  pub asleep :
      i.status == IntentStatus.dormant
        && in_agents (λ a. is_present now a && a.status == AgentStatus.active) i.agent_id agents
      ≡ false

sessions-IsTimely : (now : ℕ) (xs : List Session) → All (IsTimely now) (maintain_sessions now xs)
unfolding maintain_sessions
sessions-IsTimely now [] = tt
sessions-IsTimely now (x ∷ xs) = (ground arith, sessions-IsTimely now xs)

requests-IsFresh :
    (now : ℕ) (xs : List ConnectionRequest) → All (IsFresh now) (maintain_requests now xs)
unfolding maintain_requests
requests-IsFresh now [] = tt
requests-IsFresh now (x ∷ xs) = (ground arith, requests-IsFresh now xs)

-- The same, where a dormant intent is of no agent that has polled at all.
record Settles (now : ℕ) (agents : List Agent) (i : Intent) : Type 0 where
  ahead : runs_out now i ≡ false
  awake :
      i.status == IntentStatus.active
        && (in_agents (is_inactive now) i.agent_id agents
            && not (in_agents (is_present now) i.agent_id agents))
      ≡ false
  asleep : i.status == IntentStatus.dormant && in_agents (is_present now) i.agent_id agents ≡ false

-- Among fewer agents there is none where among more there is none.
in_agents_mono :
    (p q : Agent → Bool) (agent_id : String) (agents : List Agent)
    → in_agents p agent_id agents ≡ false
    → in_agents (λ a. p a && q a) agent_id agents ≡ false
unfolding in_agents
in_agents_mono p q agent_id agents h = ground (
  arith,
  h,
  count_mono (λ a. a.id == agent_id && (p a && q a)) (λ a. a.id == agent_id && p a) agents
      (λ a k. ground (arith, k)),
)

-- A dormant intent is of no agent in either sense.
fewer :
    (b : Bool) (p q : Agent → Bool) (agent_id : String) (agents : List Agent)
    → b && in_agents p agent_id agents ≡ false
    → b && in_agents (λ a. p a && q a) agent_id agents ≡ false
fewer true p q agent_id agents h = in_agents_mono p q agent_id agents h
fewer false p q agent_id agents h = refl

Settles-IsSettled :
    (now : ℕ) (agents : List Agent) (i : Intent) → Settles now agents i → IsSettled now agents i
Settles-IsSettled now agents i h = record {
  ahead = h.ahead;
  awake = h.awake;
  asleep =
      fewer (i.status == IntentStatus.dormant) (is_present now)
        (λ a. a.status == AgentStatus.active) i.agent_id agents h.asleep;
}

intents-Settles :
    (now : ℕ) (agents : List Agent) (xs : List Intent)
    → All (Settles now agents) (maintain_intents now agents xs)
unfolding maintain_intents
intents-Settles now agents [] = tt
intents-Settles now agents (x ∷ xs) = (
  record { ahead = ground arith; awake = ground arith; asleep = ground arith },
  intents-Settles now agents xs,
)

-- A soft ban that has a date lifts in time to come.
abbrev pub IsBannedAhead : ℕ → Agent → Type 0
IsBannedAhead now a =
    a.status == AgentStatus.soft_banned && column_le a.soft_ban_lifts_at now ≡ false

agents-IsBannedAhead : (now : ℕ) (xs : List Agent) → All (IsBannedAhead now) (lift_bans now xs)
unfolding lift_bans
agents-IsBannedAhead now [] = tt
agents-IsBannedAhead now (x ∷ xs) = (ground arith, agents-IsBannedAhead now xs)

-- What the job leaves behind: no soft ban is past its date, no open session, pending request or visible intent is past its
-- deadline, and an intent is awake or asleep as its agent is, where the agent is active.
pub record IsMaintained (now : ℕ) (db : Db) : Type 0 where
  pub sessions : All (IsTimely now) db.sessions
  pub requests : All (IsFresh now) db.connection_requests
  pub intents : All (IsSettled now db.agents) db.intents
  pub bans : All (IsBannedAhead now) db.agents

-- After the maintenance job, from any database: a session that is not closed and a pending request
-- have their deadlines ahead; so have active and dormant intents; where an agent with the id of an
-- active intent's owner has not polled for five minutes, one with that id has; no agent with the
-- id of a dormant intent's owner is active and has polled; and no soft ban is past its date.
pub maintain-IsMaintained : (now : ℕ) (db : Db) → IsMaintained now (maintain now db)
unfolding maintain
maintain-IsMaintained now db = record {
  sessions = sessions-IsTimely now db.sessions;
  requests = requests-IsFresh now db.connection_requests;
  bans = agents-IsBannedAhead now db.agents;
  intents =
      All-mono (Settles now (lift_bans now db.agents)) (IsSettled now (lift_bans now db.agents)) _
        (Settles-IsSettled now (lift_bans now db.agents))
        (intents-Settles now (lift_bans now db.agents) db.intents);
}
