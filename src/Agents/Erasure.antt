-- ===== src/Agents/Erasure.antt =====
-- What DELETE /agent leaves of an account: src/babeltower/routes/agents.py.
use babeltower.Prelude.{
  ℕ, String, ◌≡◌, refl, some, none, false, ◌≢◌, ◌⊎◌, All-mono, List, [], ◌∷◌, inl, inr, Bool-cases,
  arith, All, ◌==◌, string_eq, find, ◌&&◌, ◌!=◌, update_where, delete_where, find-update_row,
}
use text.Mathlib.TextEquality.{eq_iff}
use babeltower.Models.{
  Db, Agent, AgentStatus, Intent, Session, Block, IntentStatus, SessionStatus, intent_status_eq,
  session_status_eq,
}
use babeltower.Sessions.{ended}
use babeltower.Agents.{is_member, touches, erased, delete_account_db}

-- No intent of the agent is left, no block names it, and each session of it is closed.
pub record IsErased (agent_id : String) (db : Db) : Type 0 where
  pub intents : All (λ i. i.agent_id ≡ agent_id → i.status ≡ IntentStatus.deleted) db.intents
  pub blocks : All (λ b. (b.blocker_id ≢ agent_id) × (b.blocked_id ≢ agent_id)) db.blocks
  pub sessions :
      All
        (λ s.
          (s.agent_a_id ≡ agent_id) ⊎ (s.agent_b_id ≡ agent_id) → s.status ≡ SessionStatus.closed)
        db.sessions

-- What is left of an agent's row: its id, its key and when it was made.
abbrev pub tombstone : Agent → Agent
tombstone a = record {
  id = a.id;
  pubkey = a.pubkey;
  github_user_id = none;
  created_at = a.created_at;
  last_seen_at = none;
  status = AgentStatus.deleted;
  soft_ban_lifts_at = none;
  intents_created_total = 0;
  connection_requests_sent_total = 0;
  connection_requests_received_total = 0;
  connection_requests_accepted_total = 0;
  sessions_started_total = 0;
  matches_confirmed_total = 0;
  blocks_received_total = 0;
}

module _ (agent_id : String) where
  intents-IsErased :
      (f : Intent → Intent) (xs : List Intent)
      → ((i : Intent) → (f i).status ≡ IntentStatus.deleted)
      → All
          (λ i. i.agent_id == agent_id && i.status != IntentStatus.deleted ≡ false)
          (update_where (λ i. i.agent_id == agent_id && i.status != IntentStatus.deleted) f xs)
  unfolding update_where
  intents-IsErased f [] h = tt
  intents-IsErased f (x ∷ xs) h = (ground (arith, h x), intents-IsErased f xs h)

  blocks-IsErased :
      (xs : List Block) → All (λ b. touches agent_id b ≡ false) (delete_where (touches agent_id) xs)
  unfolding delete_where
  blocks-IsErased [] = tt
  blocks-IsErased (x ∷ xs) = elim (Bool-cases (touches agent_id x)) [
    | inl t ↦ rw t (blocks-IsErased xs)
    | inr t ↦ rw t (t, blocks-IsErased xs)
  ]

  sessions-IsErased :
      (now : ℕ) (reason : String) (xs : List Session)
      → All
          (λ s. is_member agent_id s && s.status != SessionStatus.closed ≡ false)
          (update_where
            (λ s. is_member agent_id s && s.status != SessionStatus.closed)
            (ended now reason)
            xs)
  unfolding update_where
  sessions-IsErased now reason [] = tt
  sessions-IsErased now reason (x ∷ xs) = (ground arith, sessions-IsErased now reason xs)

  intent_lem :
      (i : Intent)
      → i.agent_id == agent_id && i.status != IntentStatus.deleted ≡ false
      → i.agent_id ≡ agent_id
      → i.status ≡ IntentStatus.deleted
  intent_lem i h e = ground (arith, h, (eq_iff i.agent_id agent_id).1 e)

  block_lem :
      (b : Block)
      → touches agent_id b ≡ false
      → (b.blocker_id ≢ agent_id) × (b.blocked_id ≢ agent_id)
  block_lem b h = (
    λ e. ground (arith, h, (eq_iff b.blocker_id agent_id).1 e),
    λ e. ground (arith, h, (eq_iff b.blocked_id agent_id).1 e),
  )

  session_lem :
      (s : Session)
      → is_member agent_id s && s.status != SessionStatus.closed ≡ false
      → (s.agent_a_id ≡ agent_id) ⊎ (s.agent_b_id ≡ agent_id)
      → s.status ≡ SessionStatus.closed
  session_lem s h (inl e) = ground (arith, h, (eq_iff s.agent_a_id agent_id).1 e)
  session_lem s h (inr e) = ground (arith, h, (eq_iff s.agent_b_id agent_id).1 e)

-- Whatever the account of an agent in the database held, its deletion leaves every intent of the agent
-- deleted, no block that names it on either side, and every session of which it is a member closed;
-- and the agent's row is found by its id with nothing of it left but the id, the key and the time it
-- was made: no GitHub user, no last poll, no ban date, zero in every counter, and the status
-- "deleted".
pub delete_account_db-IsErased :
    (agent_id : String) (now : ℕ) (db : Db) (a : Agent)
    → find (λ b. b.id == agent_id) db.agents ≡ some a
    → IsErased agent_id (delete_account_db agent_id now db)
      × (find (λ b. b.id == agent_id) (delete_account_db agent_id now db).agents
          ≡ some (tombstone a))
unfolding delete_account_db
delete_account_db-IsErased agent_id now db a e = (
  record {
    intents =
        All-mono _ (λ i. i.agent_id ≡ agent_id → i.status ≡ IntentStatus.deleted) _
          (intent_lem agent_id) (intents-IsErased agent_id _ db.intents (λ i. refl));
    blocks =
        All-mono _ (λ b. (b.blocker_id ≢ agent_id) × (b.blocked_id ≢ agent_id)) _
          (block_lem agent_id) (blocks-IsErased agent_id db.blocks);
    sessions =
        All-mono _
          (λ s.
            (s.agent_a_id ≡ agent_id) ⊎ (s.agent_b_id ≡ agent_id) → s.status ≡ SessionStatus.closed)
          _ (session_lem agent_id) (sessions-IsErased agent_id now "account_deleted" db.sessions);
  },
  find-update_row (λ b. b.id == agent_id) erased db.agents (λ b h. h) e,
)
