-- ===== src/Moderation/Bans.antt =====
-- What a soft ban does to the tables: `apply_soft_ban` and `check_and_apply_soft_ban` of
-- src/babeltower/moderation.py.
use babeltower.Prelude.{
  ℕ, ◌+◌, ◌≤◌, String, ◌≡◌, refl, Option, none, some, Bool, true, false, List, [], ◌∷◌, inl, inr,
  Bool-cases, arith, ◌==◌, string_eq, ◌||◌, find, count, find_own, ◌≢◌, ◌⊎◌, update_where,
  update_row, count-update-le, find-update_row,
}
use babeltower.Models.{Db, Agent, Intent, AgentStatus, agent_status_eq, days}
use babeltower.World.{World}
use babeltower.Exec.{Result, ok}
use babeltower.Moderation.{
  Reason, ban_db, apply_soft_ban, ban_if, ban_reason, check_agent, check_and_apply_soft_ban,
  banned_until, is_active_intent_of, sleep,
}
use babeltower.Intents.{count_active_intents, is_active_of}

all_asleep :
    (agent_id : String) (xs : List Intent)
    → count (is_active_of agent_id) (update_where (is_active_intent_of agent_id) sleep xs) ≡ 0
unfolding count update_where
all_asleep agent_id [] = refl
all_asleep agent_id (x ∷ xs) = ground (arith, all_asleep agent_id xs)

-- No agent has more active intents after a ban than before.
pub ban_db-count_active_intents :
    (event_id agent_id other : String) (reason : Reason) (now : ℕ) (db : Db)
    → count_active_intents other (ban_db event_id agent_id reason now db)
      ≤ count_active_intents other db
unfolding ban_db count_active_intents
ban_db-count_active_intents event_id agent_id other reason now db =
    count-update-le (is_active_of other) (is_active_intent_of agent_id) sleep db.intents
      (λ i h k. ground arith)

-- The agent is banned until the given time, and none of its intents is active.
pub record IsBanned (agent : Agent) (until : ℕ) (db : Db) : Type 0 where
  pub row : find (λ a. a.id == agent.id) db.agents ≡ some (banned_until until agent)
  pub silent : count_active_intents agent.id db ≡ 0

pub ban_db-IsBanned :
    (event_id : String) (agent : Agent) (reason : Reason) (now : ℕ) (db : Db)
    → find (λ a. a.id == agent.id) db.agents ≡ some agent
    → IsBanned agent (now + days 7) (ban_db event_id agent.id reason now db)
unfolding ban_db count_active_intents
ban_db-IsBanned event_id agent reason now db e = record {
  row =
      find-update_row (λ a. a.id == agent.id) (banned_until (now + days 7)) db.agents (λ a h. h) e;
  silent = all_asleep agent.id db.intents;
}

module _ (other : String) where
  abbrev active_in : World → ℕ
  active_in w = count_active_intents other w.work

  apply_soft_ban-active :
      (event_id : String) (agent : Agent) (reason : Reason) (now : ℕ) (w : World)
      → active_in (apply_soft_ban event_id agent reason now w).1 ≤ active_in w
  unfolding apply_soft_ban
  apply_soft_ban-active event_id agent reason now w =
      elim (Bool-cases (agent.status == AgentStatus.soft_banned)) [
        | inl t ↦ rw t (omega arith)
        | inr t ↦ rw t (ban_db-count_active_intents event_id agent.id other reason now w.work)
      ]

  ban_if-active :
      (event_id : String) (agent : Agent) (now : ℕ) (o : Option Reason) (w : World)
      → active_in (ban_if event_id agent now o w).1 ≤ active_in w
  unfolding ban_if
  ban_if-active event_id agent now none w = omega arith
  ban_if-active event_id agent now (some reason) w =
      apply_soft_ban-active event_id agent reason now w

  check_agent-active :
      (event_id : String) (now : ℕ) (o : Option Agent) (w : World)
      → active_in (check_agent event_id now o w).1 ≤ active_in w
  unfolding check_agent
  check_agent-active event_id now none w = omega arith
  check_agent-active event_id now (some agent) w =
      elim (Bool-cases (
        agent.status == AgentStatus.soft_banned
        || (agent.status == AgentStatus.hard_banned || agent.status == AgentStatus.deleted))) [
          | inl t ↦ rw t (omega arith)
          | inr t ↦ rw t (ban_if-active event_id agent now (ban_reason agent.id now w.work) w)
        ]

  pub check_and_apply_soft_ban-active :
      (event_id agent_id : String) (now : ℕ) (w : World)
      → active_in (check_and_apply_soft_ban event_id agent_id now w).1 ≤ active_in w
  unfolding check_and_apply_soft_ban
  check_and_apply_soft_ban-active event_id agent_id now w =
      check_agent-active event_id now (find (λ a. a.id == agent_id) w.work.agents) w

-- What a check leaves: it changes nothing, or it finds the agent and a reason for the ban, and bans.
pub record Bans (id : String) (now : ℕ) (w : World) (p : Result Bool × World) : Type 0 where
  pub agent : Agent
  pub reason : Reason
  pub found : find (λ a. a.id == id) w.work.agents ≡ some agent
  pub free : agent.status ≢ AgentStatus.soft_banned
  pub because : ban_reason agent.id now w.work ≡ some reason
  pub says : p.0 ≡ ok true
  pub banned : IsBanned agent (now + days 7) p.1.work
  pub uncommitted : p.1.store ≡ w.store
  pub requests : p.1.work.connection_requests ≡ w.work.connection_requests
  pub sessions : p.1.work.sessions ≡ w.work.sessions
  pub blocks : p.1.work.blocks ≡ w.work.blocks
  pub agents :
      p.1.work.agents
      ≡ update_row (λ a. a.id == agent.id) (banned_until (now + days 7)) w.work.agents
  pub intents : p.1.work.intents ≡ update_where (is_active_intent_of agent.id) sleep w.work.intents
  pub counted : p.1.metrics.soft_bans_applied_total ≡ w.metrics.soft_bans_applied_total + 1

module _ (event_id id : String) (now : ℕ) (w : World) where
  abbrev pub Checked : Result Bool × World → Type 0
  Checked p = (p ≡ (ok false, w)) ⊎ Bans id now w p

  pub apply_soft_ban-Bans :
      (a : Agent) (reason : Reason)
      → find (λ b. b.id == id) w.work.agents ≡ some a
      → a.status == AgentStatus.soft_banned ≡ false
      → ban_reason a.id now w.work ≡ some reason
      → Bans id now w (apply_soft_ban event_id a reason now w)
  unfolding apply_soft_ban
  apply_soft_ban-Bans a reason e s r = rw s (record {
    agent = a;
    reason = reason;
    found = e;
    free = λ h. ground (arith, s, h);
    because = r;
    says = refl;
    banned = ban_db-IsBanned event_id a reason now w.work (find_own (λ b. b.id) id w.work.agents e);
    uncommitted = refl;
    requests = refl;
    sessions = refl;
    blocks = refl;
    agents = refl;
    intents = refl;
    counted = refl;
  })

  ban_if-Checked :
      (a : Agent) (o : Option Reason)
      → find (λ b. b.id == id) w.work.agents ≡ some a
      → a.status == AgentStatus.soft_banned ≡ false
      → ban_reason a.id now w.work ≡ o
      → Checked (ban_if event_id a now o w)
  unfolding ban_if
  ban_if-Checked a none e s r = inl refl
  ban_if-Checked a (some reason) e s r = inr (apply_soft_ban-Bans a reason e s r)

  check_agent-Checked :
      (o : Option Agent)
      → find (λ b. b.id == id) w.work.agents ≡ o
      → Checked (check_agent event_id now o w)
  unfolding check_agent
  check_agent-Checked none e = inl refl
  check_agent-Checked (some a) e =
      elim (Bool-cases (
        a.status == AgentStatus.soft_banned
        || (a.status == AgentStatus.hard_banned || a.status == AgentStatus.deleted))) [
          | inl t ↦ rw t (inl refl)
          | inr t ↦ rw t (ban_if-Checked a (ban_reason a.id now w.work) e (ground (arith, t)) refl)
        ]

-- The check for a soft ban of an agent either returns False and changes nothing, or finds the
-- agent's row, not soft-banned, and a reason in the counts, and returns True; then the row is
-- soft-banned until seven days from now, none of the agent's intents is active, and the ban is
-- counted once.
pub check_and_apply_soft_ban-Checked :
    (event_id id : String) (now : ℕ) (w : World)
    → Checked event_id id now w (check_and_apply_soft_ban event_id id now w)
unfolding check_and_apply_soft_ban
check_and_apply_soft_ban-Checked event_id id now w =
    check_agent-Checked event_id id now w (find (λ a. a.id == id) w.work.agents) refl

pub check_and_apply_soft_ban-store :
    (event_id id : String) (now : ℕ) (w : World)
    → (check_and_apply_soft_ban event_id id now w).1.store ≡ w.store
check_and_apply_soft_ban-store event_id id now w =
    elim (check_and_apply_soft_ban-Checked event_id id now w) [
      | inl e ↦ rw e refl
      | inr b ↦ b.uncommitted
    ]

pub check_and_apply_soft_ban-requests :
    (event_id id : String) (now : ℕ) (w : World)
    → (check_and_apply_soft_ban event_id id now w).1.work.connection_requests
      ≡ w.work.connection_requests
check_and_apply_soft_ban-requests event_id id now w =
    elim (check_and_apply_soft_ban-Checked event_id id now w) [
      | inl e ↦ rw e refl
      | inr b ↦ b.requests
    ]
