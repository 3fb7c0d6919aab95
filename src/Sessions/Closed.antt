-- ===== src/Sessions/Closed.antt =====
-- What POST /session/{session_id}/end of src/babeltower/routes/sessions.py leaves.
use babeltower.Prelude.{
  ℕ, String, ◌≡◌, ◌≢◌, refl, Option, none, some, Bool, true, false, ◌==◌, ◌!=◌, string_eq,
  if◌then◌else◌, arith, find-update_row, find-update_row-keeps,
}
use babeltower.Models.{Db, Agent, Session, SessionStatus, session_status_eq}
use babeltower.World.{World}
use babeltower.Exec.{ok, run, pure, reply, ◌>>◌}
use babeltower.Exec.Keeps.{bind-Keeps}
use babeltower.Relay.Persist.{find_session, on_session, closed_row}
use babeltower.Relay.End.{handler}
use babeltower.Relay.End
use babeltower.Relay.Keeps.{Outlasts, end_session-Keeps}
use babeltower.Sessions.{
  member_session, get_member_session, ended, close_session, end_loaded, end_session,
}
use babeltower.Lifecycle.Proposing.{member_session-found}

-- The session's row says that it is closed.
abbrev pub IsFinal : String → Db → Type 0
IsFinal id db = (t : Session) × (find_session id db ≡ some t) × (t.status ≡ SessionStatus.closed)

closed_row-Outlasts : (id : String) → Outlasts (IsFinal id)
closed_row-Outlasts id other reason count now db (t, e, c) =
    find-update_row-keeps (λ s. s.status ≡ SessionStatus.closed) (λ s. s.id == id)
      (λ s. s.id == other) (closed_row now reason count) db.sessions {x = t} (λ s. refl)
      (λ s k. refl) e c

ended-IsFinal :
    (row : Session) (now : ℕ) (reason : String) (db : Db)
    → find_session row.id db ≡ some row
    → IsFinal row.id (on_session row.id (ended now reason) db)
ended-IsFinal row now reason db e = (
  ended now reason row,
  find-update_row (λ s. s.id == row.id) (ended now reason) db.sessions (λ s k. k) e,
  refl,
)

end_loaded-IsFinal :
    (row : Session) (now : ℕ) (w : World)
    → find_session row.id w.store ≡ some row
    → IsFinal row.id (run (end_loaded now (some row)) w).1.store
unfolding end_loaded close_session
end_loaded-IsFinal row now w e =
    go (row.status != SessionStatus.closed)
      (λ h. (session_status_eq.equals_iff row.status SessionStatus.closed).0 (ground (arith, h)))
  where
    go :
        (b : Bool)
        → (b ≡ false → row.status ≡ SessionStatus.closed)
        → IsFinal row.id
            (run
              (if b
                then (do
                  close_session row.id "ended_by_agent" now
                  End.end_session handler row.id "ended_by_agent" now
                  pure (reply tt))
                else pure (reply tt))
              w).1.store
    go true c =
        let closing = ended-IsFinal row now "ended_by_agent" w.store e in
        (bind-Keeps (IsFinal row.id) (End.end_session handler row.id "ended_by_agent" now)
          (λ _. pure (reply tt)) _
          (end_session-Keeps (IsFinal row.id) (closed_row-Outlasts row.id) handler row.id
            "ended_by_agent" now _ closing closing)
          (λ a u g k. (g, k))).0
    go false c = (row, e, c refl)

not_found : (now : ℕ) (w : World) → (run (end_loaded now none) w).0 ≢ ok (reply tt)
unfolding end_loaded
not_found now w h = cc

-- Where POST /session/{session_id}/end replies, the caller is a member of the session, and the row of the
-- session is committed as closed, whatever its status was and whatever the relay held.
pub end_session-IsFinal :
    (session_id : String) (agent : Agent) (now : ℕ) (w : World)
    → let left = run (end_session session_id agent now) w in
      left.0 ≡ ok (reply tt)
      → (row : Session) × (member_session session_id agent.id w.store ≡ some row)
        × (IsFinal row.id left.1.store)
unfolding end_session get_member_session
end_session-IsFinal session_id agent now w h =
    by_row (member_session session_id agent.id w.store) refl h
  where
    by_row :
        (o : Option Session)
        → member_session session_id agent.id w.store ≡ o
        → (run (end_loaded now o) w).0 ≡ ok (reply tt)
        → (row : Session) × (o ≡ some row) × (IsFinal row.id (run (end_loaded now o) w).1.store)
    by_row none e k = absurd (not_found now w k)
    by_row (some row) e k = (
      row,
      refl,
      end_loaded-IsFinal row now w (member_session-found session_id agent.id w.store row e).0,
    )
