-- ===== src/Blocks/Apart.antt =====
-- What keeps two agents apart in the database, and that ending sessions in memory leaves it: the end of
-- `block_agent` of src/babeltower/routes/blocks.py.
use babeltower.Prelude.{
  ℕ, String, ◌≡◌, In, All-update_row, Option, none, some, Bool, true, false, List, [], ◌∷◌, arith,
  All, string_eq,
}
use babeltower.Models.{Db, Block, session_status_eq}
use babeltower.World.{World, SessionState}
use babeltower.Exec.{Result, ok, err, commit, continue, ◌>>◌}
use babeltower.Exec.Keeps.{Keeps, bind-Keeps}
use babeltower.Relay.Sockets.{get_state}
use babeltower.Relay.Persist.{closed_row}
use babeltower.Relay.End.{handler}
use babeltower.Relay.Keeps.{Outlasts, end_session-Keeps}
use babeltower.Blocks.{is_block, is_open_between, end_if_known, end_known, end_all}

-- A block of `b_id` by `a_id` is in the table.
abbrev pub HasBlock : String → String → Db → Type 0
HasBlock a_id b_id db = (b : Block) × In b db.blocks × (is_block a_id b_id b ≡ true)

-- Two agents that a block keeps apart.
abbrev pub AreApart : String → String → Db → Type 0
AreApart a_id b_id db =
    HasBlock a_id b_id db × All (λ s. is_open_between a_id b_id s ≡ false) db.sessions

module _ (a_id b_id : String) where
  abbrev Apart : Db → Type 0
  Apart = AreApart a_id b_id

  closed_row-Outlasts : Outlasts Apart
  closed_row-Outlasts id reason count now db h = (
    h.0,
    All-update_row (λ s. is_open_between a_id b_id s ≡ false) _ (closed_row now reason count)
        db.sessions (λ s e k. ground arith) h.1,
  )

  end_if_known-Apart :
      (id : String) (now : ℕ) (o : Option SessionState) (w : World)
      → Apart w.store
      → Apart w.work
      → Keeps Apart (end_if_known id now o w)
  unfolding end_if_known
  end_if_known-Apart id now none w h k = (h, k)
  end_if_known-Apart id now (some s) w h k =
      end_session-Keeps Apart closed_row-Outlasts handler id "blocked" now w h k

  end_all-Apart :
      (now : ℕ) (ids : List String) (w : World)
      → Apart w.store
      → Apart w.work
      → Keeps Apart (end_all now ids w)
  unfolding end_all end_known
  end_all-Apart now [] w h k = (h, k)
  end_all-Apart now (id ∷ rest) w h k =
      bind-Keeps Apart (end_known id now) _ w (end_if_known-Apart id now (get_state id w) w h k)
        (λ a v g j. end_all-Apart now rest v g j)

  -- The commit and the ends that follow it.
  pub committed :
      (now : ℕ) (closed : List String) (r : Result Bool) (v : World)
      → Apart v.work
      → let q = continue r (λ _. commit >> end_all now closed) v in q.0 ≡ ok tt → Apart q.1.store
  committed now closed (ok b) v k h = (end_all-Apart now closed _ k k).0
  committed now closed (err e) v k h = absurd (ground (arith, h))
