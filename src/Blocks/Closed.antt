-- ===== src/Blocks/Closed.antt =====
-- `close_sessions_between` of src/babeltower/routes/blocks.py and the sessions of the two agents.
use babeltower.Prelude.{
  ℕ, String, ◌≡◌, false, List, [], ◌∷◌, inl, inr, Bool-cases, arith, All, string_eq, update_where,
  if◌then◌else◌,
}
use babeltower.Models.{Session, session_status_eq}
use babeltower.World.{World}
use babeltower.Sessions.{ended}
use babeltower.Blocks.{is_open_between, close_sessions_between}

closed_between :
    (a_id b_id : String) (now : ℕ) (xs : List Session)
    → All
        (λ s. is_open_between a_id b_id s ≡ false)
        (update_where (is_open_between a_id b_id) (ended now "blocked") xs)
unfolding update_where
closed_between a_id b_id now [] = tt
closed_between a_id b_id now (x ∷ xs) = (one, closed_between a_id b_id now xs)
  where
    one :
        is_open_between a_id b_id (if is_open_between a_id b_id x then ended now "blocked" x else x)
        ≡ false
    one = elim (Bool-cases (is_open_between a_id b_id x)) [
      | inl t ↦ rw t (ground arith)
      | inr t ↦ rw t t
    ]

-- After `close_sessions_between` no session between the two agents, in either direction, is open.
pub close_sessions_between-None :
    (a_id b_id : String) (now : ℕ) (w : World)
    → All
        (λ s. is_open_between a_id b_id s ≡ false)
        (close_sessions_between a_id b_id now w).1.work.sessions
unfolding close_sessions_between
close_sessions_between-None a_id b_id now w = closed_between a_id b_id now w.work.sessions
