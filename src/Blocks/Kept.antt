-- ===== src/Blocks/Kept.antt =====
-- What `block_agent` of src/babeltower/routes/blocks.py leaves: the block, and no open session of the two.
use babeltower.Prelude.{
  ℕ, String, ◌≡◌, ◌≢◌, refl, In, In-select-to, In-append, In-update_row, Option, Bool, true, false,
  inl, inr, List, [], ◌∷◌, arith, ◌==◌, string_eq, select, if◌then◌else◌,
}
use text.Mathlib.TextEquality.{eq_iff}
use babeltower.Models.{Db, Agent, Block, session_status_eq}
use babeltower.World.{World}
use babeltower.Exec.{
  Exec, ok, run, begin, pure, raise, commit, http, scalar_one_or_none, ◌>>=◌, ◌>>◌,
}
use babeltower.Auth.{get_agent_by_pubkey}
use babeltower.Moderation.{check_and_apply_soft_ban}
use babeltower.Moderation.Bans.{check_and_apply_soft_ban-Checked}
use babeltower.Blocks.{
  is_block, add_block, change_reason, store_block, upsert_block, close_sessions_between, end_all,
  block_other, block_loaded, block_agent,
}
use babeltower.Blocks.Closed.{close_sessions_between-None}
use babeltower.Blocks.Apart.{HasBlock, AreApart, committed}

module _ (a_id b_id : String) where
  HasBlock-changed :
      (block_id : String) (reason : Option String) (db : Db)
      → HasBlock a_id b_id db
      → HasBlock a_id b_id (change_reason block_id reason db)
  unfolding change_reason
  HasBlock-changed block_id reason db (b, i, t) =
      elim (In-update_row (λ c. c.id == block_id) (λ c. record c { reason = reason }) db.blocks b
        i) [ inl k ↦ (b, k, t) | inr k ↦ (_, k, t) ]

  close_sessions_between-Apart :
      (now : ℕ) (w : World)
      → HasBlock a_id b_id w.work
      → AreApart a_id b_id (close_sessions_between a_id b_id now w).1.work
  unfolding close_sessions_between
  close_sessions_between-Apart now w b = (b, close_sessions_between-None a_id b_id now w)

  banned-Apart :
      (created : Bool) (event_id id : String) (now : ℕ) (w : World)
      → AreApart a_id b_id w.work
      → AreApart a_id b_id
          ((if created then check_and_apply_soft_ban event_id id now else pure false) w).1.work
  banned-Apart false event_id id now w h = h
  banned-Apart true event_id id now w h =
      elim (check_and_apply_soft_ban-Checked event_id id now w) [
        | inl e ↦ rw e h
        | inr b ↦ (rw b.blocks h.0, rw b.sessions h.1)
      ]

  -- What the handler does once the block is in the table.
  stored-Apart :
      (event_id : String) (now : ℕ) (created : Bool) (w : World)
      → HasBlock a_id b_id w.work
      → let q =
          (do
            closed ← close_sessions_between a_id b_id now
            if created then check_and_apply_soft_ban event_id b_id now else pure false
            commit
            end_all now closed)
            w in
        q.0 ≡ ok tt → AreApart a_id b_id q.1.store
  unfolding close_sessions_between
  stored-Apart event_id now created w b h =
      committed a_id b_id now _ _ _
        (banned-Apart created event_id b_id now _ (close_sessions_between-Apart now w b)) h

  module _ (id event_id : String) (reason : Option String) (now : ℕ) where
    abbrev after_store : Bool → Exec (Unit {0})
    after_store created = do
      closed ← close_sessions_between a_id b_id now
      if created then check_and_apply_soft_ban event_id b_id now else pure false
      commit
      end_all now closed

    upserted-Apart :
        (rows : List Block) (w : World)
        → select (is_block a_id b_id) w.work.blocks ≡ rows
        → let q =
            ((scalar_one_or_none rows >>= store_block id a_id b_id reason now) >>= after_store) w in
          q.0 ≡ ok tt → AreApart a_id b_id q.1.store
    unfolding scalar_one_or_none store_block add_block
    upserted-Apart [] w e h = stored-Apart event_id now true _ (added w.work) h
      where
        added : (db : Db) → HasBlock a_id b_id (add_block id a_id b_id reason now db)
        added db = (
          _,
          In-append db.blocks _ _ (inl refl),
          ground (arith, (eq_iff a_id a_id).1 refl, (eq_iff b_id b_id).1 refl),
        )
    upserted-Apart (b ∷ []) w e h =
        stored-Apart event_id now false _ (HasBlock-changed b.id reason w.work (b, here.0, here.1))
          h
      where
        here : In b w.work.blocks × (is_block a_id b_id b ≡ true)
        here = In-select-to (is_block a_id b_id) w.work.blocks {x = b} (rw e (inl refl))
    upserted-Apart (b ∷ c ∷ rest) w e h = cc

-- What a block by `agent` of the agent with the key leaves.
abbrev pub IsKeptApart : Agent → String → Db → Db → Type 0
IsKeptApart agent key before after =
    (t : Agent) × In t before.agents
    × (t.pubkey ≡ key)
    × (t.id ≢ agent.id)
    × AreApart agent.id t.id after

module _ (id event_id : String) (agent : Agent) (key : String) (reason : Option String)
    (now : ℕ) where
  other-IsKeptApart :
      (t : Agent) (same : Bool) (w : World)
      → (t.id == agent.id) ≡ same
      → In t w.work.agents
      → t.pubkey ≡ key
      → let q =
          (if same
              then raise (http 400 "cannot block self")
              else block_other id event_id agent t reason now)
            w in
        q.0 ≡ ok tt → IsKeptApart agent key w.work q.1.store
  unfolding block_other upsert_block
  other-IsKeptApart t true w e i k h = cc
  other-IsKeptApart t false w e i k h = (
    t,
    i,
    k,
    λ q. ground (arith, e, (eq_iff t.id agent.id).1 q),
    upserted-Apart agent.id t.id id event_id reason now
        (select (is_block agent.id t.id) w.work.blocks) w refl h,
  )

  loaded-IsKeptApart :
      (rows : List Agent) (w : World)
      → select (λ a. a.pubkey == key) w.work.agents ≡ rows
      → let q = (scalar_one_or_none rows >>= block_loaded id event_id agent reason now) w in
        q.0 ≡ ok tt → IsKeptApart agent key w.work q.1.store
  unfolding scalar_one_or_none block_loaded
  loaded-IsKeptApart [] w e h = cc
  loaded-IsKeptApart (t ∷ []) w e h =
      let here = In-select-to (λ a. a.pubkey == key) w.work.agents {x = t} (rw e (inl refl)) in
      other-IsKeptApart t (t.id == agent.id) w refl here.0 ((eq_iff t.pubkey key).0 here.1) h
  loaded-IsKeptApart (t ∷ u ∷ rest) w e h = cc

  -- After POST /block that succeeds, the block of the one agent with the key, who is not the caller,
  -- is committed, and no session between the two is open, in either direction.
  pub block_agent-IsKeptApart :
      (w : World)
      → let left = run (block_agent id event_id agent key reason now) w in
        left.0 ≡ ok tt → IsKeptApart agent key w.store left.1.store
  unfolding block_agent get_agent_by_pubkey
  block_agent-IsKeptApart w h =
      loaded-IsKeptApart (select (λ a. a.pubkey == key) w.store.agents) (begin w) refl h
