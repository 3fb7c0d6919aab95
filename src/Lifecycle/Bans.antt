-- ===== src/Lifecycle/Bans.antt =====
-- A soft ban touches neither sessions nor requests: src/babeltower/moderation.py.
use babeltower.Prelude.{ℕ, String, refl, Option, none, some, ◌||◌, find, ◌==◌, string_eq}
use babeltower.Models.{Db, Agent, AgentStatus, agent_status_eq}
use babeltower.World.{World}
use babeltower.Moderation.{
  check_and_apply_soft_ban, apply_soft_ban, ban_db, ban_if, check_agent, ban_reason, Reason,
}
use babeltower.Lifecycle.Steps.{Steps, Steps-other}
use babeltower.Lifecycle.Sound.{Fits, After, After-stay, After-execute, After-if_run}

pub ban_db-Steps :
    (event_id agent_id : String) (reason : Reason) (now : ℕ) (db : Db)
    → Steps db (ban_db event_id agent_id reason now db)
unfolding ban_db
ban_db-Steps event_id agent_id reason now db = Steps-other refl refl

apply_soft_ban-After :
    (event_id : String) (agent : Agent) (reason : Reason) (now : ℕ) (w : World)
    → Fits w
    → After w (apply_soft_ban event_id agent reason now w)
unfolding apply_soft_ban
apply_soft_ban-After event_id agent reason now w f =
    After-if_run w w (agent.status == AgentStatus.soft_banned) _ _ (λ _. After-stay _ f)
      λ _. After-execute _ refl f (ban_db-Steps event_id agent.id reason now w.work)

check_agent-After :
    (event_id : String) (now : ℕ) (o : Option Agent) (w : World)
    → Fits w
    → After w (check_agent event_id now o w)
unfolding check_agent
check_agent-After event_id now none w f = After-stay _ f
check_agent-After event_id now (some agent) w f =
    After-if_run w w
      (agent.status == AgentStatus.soft_banned
        || (agent.status == AgentStatus.hard_banned || agent.status == AgentStatus.deleted))
      _ _ (λ _. After-stay _ f) λ _. ban_if-After (ban_reason agent.id now w.work)
  where
    ban_if-After : (o : Option Reason) → After w (ban_if event_id agent now o w)
    ban_if-After none = After-stay _ f
    ban_if-After (some reason) = apply_soft_ban-After event_id agent reason now w f

pub check_and_apply_soft_ban-After :
    (event_id id : String) (now : ℕ) (w : World)
    → Fits w
    → After w (check_and_apply_soft_ban event_id id now w)
unfolding check_and_apply_soft_ban
check_and_apply_soft_ban-After event_id id now w f =
    check_agent-After event_id now (find (λ a. a.id == id) w.work.agents) w f
