-- ===== src/Lifecycle/Blocking.antt =====
-- Blocking and unblocking an agent keeps the lifecycle: src/babeltower/routes/blocks.py.
use babeltower.Prelude.{
  ℕ, String, refl, Option, none, some, Bool, false, List, [], ◌∷◌, ◌==◌, string_eq, select,
  if◌then◌else◌,
}
use babeltower.Models.{Agent, Block, session_status_eq, intent_status_eq}
use babeltower.World.{World, SessionState}
use babeltower.Exec.{pure, commit, ◌>>◌, scalar_one_or_none}
use babeltower.Auth.{get_agent_by_pubkey}
use babeltower.Moderation.{check_and_apply_soft_ban}
use babeltower.Relay.Sockets.{get_state}
use babeltower.Relay.End.{handler}
use babeltower.Blocks.{
  upsert_block, store_block, close_sessions_between, is_open_between, end_if_known, end_known,
  end_all, block_other, block_loaded, block_agent, is_block, drop_block, delete_block_row,
  unblock_target, unblock_agent,
}
use babeltower.Lifecycle.Steps.{Steps-refl, Steps-other}
use babeltower.Lifecycle.Sound.{
  Fits, After, After-stay, After-bind, After-if_run, After-commit, After-committed, After-execute,
}
use babeltower.Lifecycle.Bans.{check_and_apply_soft_ban-After}
use babeltower.Lifecycle.Connecting.{scalar-After}
use babeltower.Lifecycle.Ending.{end_session-After}
use babeltower.Lifecycle.Others.{close-Steps}

get_agent_by_pubkey-After :
    (pubkey : String) (w : World) → Fits w → After w (get_agent_by_pubkey pubkey w)
unfolding get_agent_by_pubkey
get_agent_by_pubkey-After pubkey w f =
    scalar-After (select (λ a. a.pubkey == pubkey) w.work.agents) w f

module _ (id blocker_id blocked_id : String) (reason : Option String) (now : ℕ) where
  store_block-After :
      (o : Option Block) (w : World)
      → Fits w
      → After w (store_block id blocker_id blocked_id reason now o w)
  unfolding store_block
  store_block-After none w f = After-execute _ refl f (Steps-other refl refl)
  store_block-After (some b) w f = After-execute _ refl f (Steps-other refl refl)

  upsert_block-After :
      (w : World) → Fits w → After w (upsert_block id blocker_id blocked_id reason now w)
  unfolding upsert_block
  upsert_block-After w f =
      After-bind (scalar_one_or_none (select (is_block blocker_id blocked_id) w.work.blocks)) _ w
        (scalar-After _ w f) (λ o v g. store_block-After o v g)

close_sessions_between-After :
    (a b : String) (now : ℕ) (w : World) → Fits w → After w (close_sessions_between a b now w)
unfolding close_sessions_between
close_sessions_between-After a b now w f =
    After-execute _ refl f (close-Steps (is_open_between a b) now "blocked" w.work)

end_if_known-After :
    (id : String) (now : ℕ) (o : Option SessionState) (w : World)
    → Fits w
    → After w (end_if_known id now o w)
unfolding end_if_known
end_if_known-After id now none w f = After-stay _ f
end_if_known-After id now (some s) w f = end_session-After handler id "blocked" now w f

end_known-After : (id : String) (now : ℕ) (w : World) → Fits w → After w (end_known id now w)
unfolding end_known
end_known-After id now w f = end_if_known-After id now (get_state id w) w f

end_all-After : (now : ℕ) (ids : List String) (w : World) → Fits w → After w (end_all now ids w)
unfolding end_all
end_all-After now [] w f = After-stay _ f
end_all-After now (id ∷ rest) w f =
    After-bind (end_known id now) _ w (end_known-After id now w f)
      (λ a v g. end_all-After now rest v g)

module _ (id event_id : String) (agent : Agent) (reason : Option String) (now : ℕ) where
  block_other-After :
      (target : Agent) (w : World)
      → Fits w
      → After w (block_other id event_id agent target reason now w)
  unfolding block_other
  block_other-After target w f =
      After-bind (upsert_block id agent.id target.id reason now) _ w
        (upsert_block-After id agent.id target.id reason now w f)
        λ created v g.
          After-bind (close_sessions_between agent.id target.id now) _ v
            (close_sessions_between-After agent.id target.id now v g)
            λ closed u h.
              After-bind
                (if created then check_and_apply_soft_ban event_id target.id now else pure false)
                (λ _. commit >> end_all now closed) u (ban-After created u h)
                λ b t k. After-committed _ k (end_all-After now closed _)
    where
      ban-After :
          (created : Bool) (u : World)
          → Fits u
          → After u
              ((if created then check_and_apply_soft_ban event_id target.id now else pure false) u)
      ban-After created u h =
          After-if_run u u created _ _
            (λ _. check_and_apply_soft_ban-After event_id target.id now u h) (λ _. After-stay _ h)

  block_loaded-After :
      (o : Option Agent) (w : World)
      → Fits w
      → After w (block_loaded id event_id agent reason now o w)
  unfolding block_loaded
  block_loaded-After none w f = After-stay _ f
  block_loaded-After (some target) w f =
      After-if_run w w (target.id == agent.id) _ _ (λ _. After-stay _ f)
        (λ _. block_other-After target w f)

  pub block_agent-After :
      (target_pubkey : String) (w : World)
      → Fits w
      → After w (block_agent id event_id agent target_pubkey reason now w)
  unfolding block_agent
  block_agent-After target_pubkey w f =
      After-bind (get_agent_by_pubkey target_pubkey) _ w
        (get_agent_by_pubkey-After target_pubkey w f) (λ o v g. block_loaded-After o v g)

drop_block-After : (o : Option Block) (w : World) → Fits w → After w (drop_block o w)
unfolding drop_block
drop_block-After none w f = After-stay _ f
drop_block-After (some b) w f = After-execute _ refl f (Steps-other refl refl)

delete_block_row-After : (a b : String) (w : World) → Fits w → After w (delete_block_row a b w)
unfolding delete_block_row
delete_block_row-After a b w f =
    After-bind (scalar_one_or_none (select (is_block a b) w.work.blocks)) _ w (scalar-After _ w f)
      λ o v g.
        After-bind (drop_block o) (λ _. commit) v (drop_block-After o v g)
          (λ c u h. After-commit _ refl h (Steps-refl u.work))

unblock_target-After :
    (id : String) (o : Option Agent) (w : World) → Fits w → After w (unblock_target id o w)
unfolding unblock_target
unblock_target-After id none w f = After-stay _ f
unblock_target-After id (some target) w f = delete_block_row-After id target.id w f

pub unblock_agent-After :
    (agent : Agent) (pubkey : String) (w : World) → Fits w → After w (unblock_agent agent pubkey w)
unfolding unblock_agent
unblock_agent-After agent pubkey w f =
    After-bind (get_agent_by_pubkey pubkey) _ w (get_agent_by_pubkey-After pubkey w f)
      (λ o v g. unblock_target-After agent.id o v g)
