-- ===== src/Moderation/Due.antt =====
-- src/babeltower/moderation.py: when `check_and_apply_soft_ban` bans an agent, and what it does then.
use babeltower.Prelude.{
  ℕ, ◌+◌, ◌-◌, ◌*◌, ◌≤◌, ◌<◌, max, String, ◌≡◌, ◌≢◌, Option, some, Bool, true, false, ◌&&◌, ◌==◌,
  string_eq, ◌⊎◌, find, count, leb, column_ge,
}
use babeltower.Models.{
  Db, Agent, AgentStatus, RequestStatus, IntentStatus, agent_status_eq, request_status_eq,
  intent_status_eq, days,
}
use babeltower.World.{World}
use babeltower.Exec.{Result, ok}
use babeltower.Moderation.Bans.{Bans}

-- The limits: more than five blocks received; fifty requests sent and more than fifty for each that
-- was accepted; more than a hundred intents created.
abbrev pub IsOver : ℕ → ℕ → ℕ → ℕ → Type 0
IsOver blocks sent accepted intents =
    (5 < blocks) ⊎ (((50 ≤ sent) × (50 * max accepted 1 < sent)) ⊎ (100 < intents))

-- An agent is due for a ban: it is neither banned nor deleted, and over a limit with the blocks and
-- requests of seven days and the intents of one.
pub record IsDue (now : ℕ) (db : Db) (a : Agent) : Type 0 where
  pub not_soft_banned : a.status ≢ AgentStatus.soft_banned
  pub not_hard_banned : a.status ≢ AgentStatus.hard_banned
  pub not_deleted : a.status ≢ AgentStatus.deleted
  pub over :
      IsOver
        (count (λ b. b.blocked_id == a.id && leb (now - days 7) b.created_at) db.blocks)
        (count
          (λ r. r.from_agent_id == a.id && leb (now - days 7) r.created_at)
          db.connection_requests)
        (count
          (λ r.
            r.from_agent_id == a.id
            && (r.status == RequestStatus.accepted && column_ge r.responded_at (now - days 7)))
          db.connection_requests)
        (count (λ i. i.agent_id == a.id && leb (now - days 1) i.created_at) db.intents)

-- What a ban leaves: the answer is True, the row is soft-banned for seven days from now, no intent of
-- the agent is active, the ban is counted once, nothing is committed, and the requests, sessions and
-- blocks are as before.
pub record IsSoftBanned (now : ℕ) (a : Agent) (w : World) (p : Result Bool × World) : Type 0 where
  pub says : p.0 ≡ ok true
  pub row :
      find (λ b. b.id == a.id) p.1.work.agents
      ≡ some
          (record a { status = AgentStatus.soft_banned; soft_ban_lifts_at = some (now + days 7) })
  pub silent :
      count (λ i. i.agent_id == a.id && i.status == IntentStatus.active) p.1.work.intents ≡ 0
  pub counted : p.1.metrics.soft_bans_applied_total ≡ w.metrics.soft_bans_applied_total + 1
  pub uncommitted : p.1.store ≡ w.store
  pub requests : p.1.work.connection_requests ≡ w.work.connection_requests
  pub sessions : p.1.work.sessions ≡ w.work.sessions
  pub blocks : p.1.work.blocks ≡ w.work.blocks

module _ (event_id id : String) (now : ℕ) (w : World) where
  -- A check of a row, if there is one: where a ban is due it bans, where none is due it returns False
  -- and changes nothing.
  abbrev pub Judges : Option Agent → Result Bool × World → Type 0
  Judges o p =
      ((a : Agent) × (o ≡ some a) × IsDue now w.work a × IsSoftBanned now a w p)
      ⊎ (((a : Agent) → o ≡ some a → ¬ IsDue now w.work a) × (p ≡ (ok false, w)))
