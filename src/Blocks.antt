-- ===== src/Blocks.antt =====
-- src/babeltower/routes/blocks.py: blocking and unblocking an agent. `get_agent_by_pubkey` is the
-- function of auth.py once more.
pub mod Apart
pub mod Closed
pub mod Hidden
pub mod Kept
pub mod Listed
use babeltower.Prelude.{
  ℕ, ◌+◌, String, Option, none, some, Bool, true, false, ◌&&◌, ◌||◌, List, [], ◌∷◌, ◌++◌, map,
  if◌then◌else◌, ◌==◌, ◌!=◌, string_eq, find, select, update_where, update_row, delete_where,
}
use babeltower.Models.{Db, Agent, Session, Block, SessionStatus, session_status_eq}
use babeltower.World.{World, SessionState}
use babeltower.Exec.{
  Exec, Result, http, pure, raise, query, execute, commit, when, ◌>>=◌, ◌>>◌, scalar_one_or_none,
}
use babeltower.Auth.{get_agent_by_pubkey}
use babeltower.Moderation.{check_and_apply_soft_ban}
use babeltower.Relay.Sockets.{get_state}
use babeltower.Relay.End.{end_session, handler}
use babeltower.Sessions.{ended}

abbrev pub is_block : String → String → Block → Bool
is_block blocker_id blocked_id b = b.blocker_id == blocker_id && b.blocked_id == blocked_id

abbrev new_block : String → String → String → Option String → ℕ → Block
new_block id blocker_id blocked_id reason now = record {
  id = id;
  blocker_id = blocker_id;
  blocked_id = blocked_id;
  reason = reason;
  created_at = now;
}

abbrev count_block : Agent → Agent
count_block a = record a { blocks_received_total = a.blocks_received_total + 1 }

unfoldable pub add_block : String → String → String → Option String → ℕ → Db → Db
unfolding update_row
add_block id blocker_id blocked_id reason now db = record db {
  agents = update_row (λ a. a.id == blocked_id) count_block db.agents;
  blocks = db.blocks ++ new_block id blocker_id blocked_id reason now ∷ [];
}

unfoldable pub change_reason : String → Option String → Db → Db
unfolding update_row
change_reason block_id reason db = record db {
  blocks = update_row (λ b. b.id == block_id) (λ b. record b { reason = reason }) db.blocks;
}

unfoldable pub store_block : String → String → String → Option String → ℕ → Option Block → Exec Bool
unfolding add_block change_reason
store_block id blocker_id blocked_id reason now none = do
  execute (add_block id blocker_id blocked_id reason now)
  pure true
store_block id blocker_id blocked_id reason now (some b) = do
  execute (change_reason b.id reason)
  pure false

-- `upsert_block`; the result is `created`
unfoldable pub upsert_block : String → String → String → Option String → ℕ → Exec Bool
unfolding select
upsert_block id blocker_id blocked_id reason now = do
  rows ← query (λ db. select (is_block blocker_id blocked_id) db.blocks)
  found ← scalar_one_or_none rows
  store_block id blocker_id blocked_id reason now found

abbrev pub is_open_between : String → String → Session → Bool
is_open_between a_id b_id s =
    ((s.agent_a_id == a_id && s.agent_b_id == b_id)
      || (s.agent_a_id == b_id && s.agent_b_id == a_id))
    && s.status != SessionStatus.closed

-- `close_sessions_between`
unfoldable pub close_sessions_between : String → String → ℕ → Exec (List String)
unfolding select update_where
close_sessions_between a_id b_id now = do
  rows ← query (λ db. select (is_open_between a_id b_id) db.sessions)
  execute λ db. record db {
    sessions = update_where (is_open_between a_id b_id) (ended now "blocked") db.sessions;
  }
  pure (map (λ s. s.id) rows)

-- `if session_manager.has_session(session_id): await session_manager.end_session(...)`
unfoldable pub end_if_known : String → ℕ → Option SessionState → Exec (Unit {0})
end_if_known session_id now none = pure tt
end_if_known session_id now (some s) = end_session handler session_id "blocked" now

unfoldable pub end_known : String → ℕ → Exec (Unit {0})
end_known session_id now w = end_if_known session_id now (get_state session_id w) w

unfoldable pub end_all : ℕ → List String → Exec (Unit {0})
end_all now [] = pure tt
end_all now (session_id ∷ rest) = do end_known session_id now; end_all now rest

-- The handler once the target is known and is another agent.
unfoldable pub block_other : String → String → Agent → Agent → Option String → ℕ → Exec (Unit {0})
block_other id event_id agent target reason now = do
  created ← upsert_block id agent.id target.id reason now
  closed ← close_sessions_between agent.id target.id now
  if created then check_and_apply_soft_ban event_id target.id now else pure false
  commit
  end_all now closed

unfoldable pub block_loaded :
    String → String → Agent → Option String → ℕ → Option Agent → Exec (Unit {0})
block_loaded id event_id agent reason now none = raise (http 404 "target agent not found")
block_loaded id event_id agent reason now (some target) =
    if target.id == agent.id
    then raise (http 400 "cannot block self")
    else block_other id event_id agent target reason now

-- POST /block; `id` and `event_id` are the ids of a new block and of a new abuse event.
unfoldable pub block_agent : String → String → Agent → String → Option String → ℕ → Exec (Unit {0})
block_agent id event_id agent target_pubkey reason now = do
  target ← get_agent_by_pubkey target_pubkey
  block_loaded id event_id agent reason now target

unfoldable pub drop_block : Option Block → Exec (Unit {0})
unfolding delete_where
drop_block none = pure tt
drop_block (some b) =
    execute λ db. record db { blocks = delete_where (λ c. c.id == b.id) db.blocks }

-- `delete_block_row`
unfoldable pub delete_block_row : String → String → Exec (Unit {0})
unfolding select
delete_block_row blocker_id blocked_id = do
  rows ← query (λ db. select (is_block blocker_id blocked_id) db.blocks)
  found ← scalar_one_or_none rows
  drop_block found
  commit

unfoldable pub unblock_target : String → Option Agent → Exec (Unit {0})
unblock_target agent_id none = pure tt
unblock_target agent_id (some target) = delete_block_row agent_id target.id

-- DELETE /block/{target_agent_pubkey}
unfoldable pub unblock_agent : Agent → String → Exec (Unit {0})
unblock_agent agent target_pubkey = do
  target ← get_agent_by_pubkey target_pubkey
  unblock_target agent.id target
