-- ===== src/Blocks/Listed.antt =====
-- src/babeltower/routes/blocks.py: GET /blocks, and what unblocking an agent leaves.
use babeltower.Prelude.{
  String, ◌≡◌, ◌≢◌, refl, ap, sym, ◌∙◌, In, In-query, In-find, In-select-from, In-delete_where,
  find_sound, Option, none, some, Bool, true, List, [], ◌∷◌, map, arith, ◌==◌, string_eq, select,
  sort_by, join_rows, leb, inl, inr,
}
use text.Mathlib.TextEquality.{eq_iff}
use babeltower.Models.{Db, Agent, Block}
use babeltower.World.{World}
use babeltower.Exec.{Exec, ok, run, begin, query, commit, scalar_one_or_none, ◌>>=◌, ◌>>◌}
use babeltower.Auth.{get_agent_by_pubkey}
use babeltower.Schemas.{BlockResponse, BlocksResponse}
use babeltower.Inbox.{both, agent_by_id}
use babeltower.Blocks.{is_block, drop_block, delete_block_row, unblock_target, unblock_agent}

abbrev pub with_blocked : Db → Block → Option (Block × Agent)
with_blocked db b = both (some b) (agent_by_id b.blocked_id db)

abbrev pub block_response : Block × Agent → BlockResponse
block_response (block, target) = record {
  target_agent_pubkey = target.pubkey;
  reason = block.reason;
  created_at = block.created_at;
}

-- `list_block_rows`: the newest first
unfoldable pub list_block_rows : String → Db → List BlockResponse
unfolding select sort_by join_rows
list_block_rows blocker_id db = map block_response (
    sort_by (λ (x y : Block × Agent). leb y.0.created_at x.0.created_at)
      (join_rows (with_blocked db) (select (λ b. b.blocker_id == blocker_id) db.blocks)))

-- GET /blocks
unfoldable pub get_blocks : Agent → Exec BlocksResponse
unfolding list_block_rows
get_blocks agent = query (λ db. record { blocks = list_block_rows agent.id db })

-- What is listed is a block of the agent, with the key of the agent who is blocked.
list_block_rows-In :
    (blocker_id : String) (db : Db) (r : BlockResponse)
    → In r (list_block_rows blocker_id db)
    → (b : Block) × (x : Agent) × In b db.blocks
      × (b.blocker_id ≡ blocker_id)
      × (agent_by_id b.blocked_id db ≡ some x)
      × (r.target_agent_pubkey ≡ x.pubkey)
unfolding list_block_rows
list_block_rows-In blocker_id db r i =
    let q =
      (In-query (λ b. b.blocker_id == blocker_id) (with_blocked db)
          (λ (x y : Block × Agent). leb y.0.created_at x.0.created_at) block_response db.blocks).0
        i in
    let found = blocked q.0 (agent_by_id q.0.blocked_id db) q.1 q.4 in
    (
      q.0,
      q.1.1,
      q.2,
      (eq_iff q.0.blocker_id blocker_id).0 q.3,
      found,
      ap (λ y. y.target_agent_pubkey) q.5,
    )
  where
    blocked :
        (b : Block) (o : Option Agent) (row : Block × Agent)
        → both (some b) o ≡ some row
        → o ≡ some row.1
    blocked b none row e = absurd (ground (arith, e))
    blocked b (some a) row e = ground (arith, e)

-- The rows that were selected are all that there are.
In-selected :
    {A : Type 0} (p : A → Bool) (xs : List A) {rows : List A} (x : A)
    → select p xs ≡ rows
    → In x xs
    → p x ≡ true
    → In x rows
In-selected p xs x e i t = rw e at (In-select-from p xs {x = x} i t)

dropped :
    (a_id t_id : String) (w : World) (rows : List Block)
    → select (is_block a_id t_id) w.work.blocks ≡ rows
    → let q = (do found ← scalar_one_or_none rows; drop_block found; commit) w in
      q.0 ≡ ok tt
      → (q.1.store.agents ≡ w.work.agents)
        × ((b : Block) → In b q.1.store.blocks → is_block a_id t_id b ≡ true → ⊥)
unfolding scalar_one_or_none drop_block
dropped a_id t_id w [] e h =
    (refl, λ b i t. (In-selected (is_block a_id t_id) w.work.blocks b e i t).lower)
dropped a_id t_id w (x ∷ []) e h = (
  refl,
  λ b i t.
      let k = In-delete_where (λ c. c.id == x.id) w.work.blocks {x = b} i in
      elim (In-selected (is_block a_id t_id) w.work.blocks b e k.0 t) [
        | inl same ↦ ground (arith, k.1, (eq_iff b.id x.id).1 (ap (λ c. c.id) same))
        | inr none_left ↦ none_left.lower
      ],
)
dropped a_id t_id w (x ∷ y ∷ rest) e h = cc

module _ (agent : Agent) (key : String) (w : World) where
  -- Nobody who is blocked afterwards has the key.
  unblocked :
      (rows : List Agent)
      → select (λ a. a.pubkey == key) w.store.agents ≡ rows
      → let q = (do t ← scalar_one_or_none rows; unblock_target agent.id t) (begin w) in
        q.0 ≡ ok tt
        → (b : Block) (x : Agent) → In b q.1.store.blocks
        → b.blocker_id ≡ agent.id
        → agent_by_id b.blocked_id q.1.store ≡ some x
        → x.pubkey ≢ key
  unfolding scalar_one_or_none unblock_target delete_block_row
  unblocked [] e h b x i own found same =
      let none_left =
        In-selected (λ a. a.pubkey == key) w.store.agents x e
          (In-find (λ a. a.id == b.blocked_id) w.store.agents found)
          ((eq_iff x.pubkey key).1 same) in
      none_left.lower
  unblocked (t ∷ []) e h b x i own found same =
      let gone =
        dropped agent.id t.id (begin w) (select (is_block agent.id t.id) w.store.blocks) refl h in
      let here : In x w.store.agents =
        rw (← gone.0) (In-find (λ a. a.id == b.blocked_id) _ found) in
      elim (In-selected (λ a. a.pubkey == key) w.store.agents x e here
        ((eq_iff x.pubkey key).1 same)) [
          | inl one ↦
              let id : b.blocked_id ≡ t.id =
                sym ((eq_iff x.id b.blocked_id).0 (find_sound (λ a. a.id == b.blocked_id) _ found))
                ∙ ap (λ a. a.id) one in
              gone.1 b i (
                ground
                  (arith, (eq_iff b.blocker_id agent.id).1 own, (eq_iff b.blocked_id t.id).1 id))
          | inr none_left ↦ none_left.lower
        ]
  unblocked (t ∷ u ∷ rest) e h b x i own found same = cc

  -- After DELETE /block/{key} that succeeds, GET /blocks of the agent lists nobody with that key.
  pub unblock_agent-IsUnlisted :
      let left = run (unblock_agent agent key) w in
      left.0 ≡ ok tt
      → (list : BlocksResponse) × ((run (get_blocks agent) left.1).0 ≡ ok list)
        × ((r : BlockResponse) → In r list.blocks → r.target_agent_pubkey ≢ key)
  unfolding unblock_agent get_agent_by_pubkey get_blocks
  unblock_agent-IsUnlisted h = (
    _,
    refl,
    λ r i same.
        let listed = list_block_rows-In agent.id (run (unblock_agent agent key) w).1.store r i in
        unblocked (select (λ a. a.pubkey == key) w.store.agents) refl h listed.0 listed.1 listed.2
          listed.3 listed.4 (sym listed.5 ∙ same),
  )
