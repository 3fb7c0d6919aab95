-- ===== src/Lifecycle/Ending.antt =====
-- What the relay writes to the database keeps the lifecycle: the ends of sessions and the counts,
-- src/babeltower/relay.py.
use babeltower.Prelude.{
  ℕ, String, ◌≡◌, refl, Option, none, some, Bool, true, false, ◌&&◌, arith, ◌==◌, nat_eq,
}
use babeltower.Models.{Db, Session, SessionStatus, session_status_eq}
use babeltower.World.{World, SessionState}
use babeltower.Exec.{on_metrics, when}
use babeltower.Relay.Sockets.{on_state, get_state}
use babeltower.Relay.Persist.{
  on_session, find_session, activated, activate, set_session_active, persist_message_count,
  closed_row, persist_closed,
}
use babeltower.Relay.End.{
  Caller, cancels_caller, hang_up_all, finish, ended_event, end_open, end_state, end_session,
  mark_closed, dec_active_sessions,
}
use babeltower.Lifecycle.{Shape, here, next, joins, closes}
use babeltower.Lifecycle.Steps.{Steps, Steps-refl, Steps-trans, Steps-other, Steps-on_session}
use babeltower.Lifecycle.Sound.{Fits, After, After-stay, After-bind, After-if_run, After-store}
use babeltower.Lifecycle.Silent.{After-Silent, on_state-Silent, hang_up_all-Silent}

persist_closed-Steps :
    (id reason : String) (count : Option ℕ) (now : ℕ) (db : Db)
    → Steps db (on_session id (closed_row now reason count) db)
persist_closed-Steps id reason count now db =
    Steps-on_session id (closed_row now reason count) db (λ s. refl) (λ s e h. (refl, refl))
      (λ s e. record {
        id = refl;
        agent_a = refl;
        agent_b = refl;
        request = refl;
        status = next here (closes s.status);
      })

pub persist_closed-After :
    (id reason : String) (count : Option ℕ) (now : ℕ) (w : World)
    → Fits w
    → After w (persist_closed id reason count now w)
unfolding persist_closed
persist_closed-After id reason count now w f =
    After-store _ refl f (persist_closed-Steps id reason count now w.store)

activated-Steps :
    (id : String) (now : ℕ) (db : Db) (row : Session)
    → find_session id db ≡ some row
    → row.status ≡ SessionStatus.awaiting_join
    → Steps db (on_session id (activated now) db)
activated-Steps id now db row e a =
    Steps-on_session id (activated now) db (λ s. refl) (λ s q h. ground (arith, e))
      (λ s q. record {
        id = refl;
        agent_a = refl;
        agent_b = refl;
        request = refl;
        status = rw (same_status s q) (next here joins);
      })
  where
    same_status :
        (s : Session) → find_session id db ≡ some s → s.status ≡ SessionStatus.awaiting_join
    same_status s q = ground (arith, e)

activate-Steps :
    (id : String) (now : ℕ) (db : Db) (o : Option Session)
    → find_session id db ≡ o
    → Steps db (activate id now o db)
unfolding activate
activate-Steps id now db none e = Steps-refl db
activate-Steps id now db (some row) e = by_status (row.status == SessionStatus.awaiting_join) refl
  where
    by_status :
        (b : Bool)
        → (row.status == SessionStatus.awaiting_join) ≡ b
        → Steps db (activate id now (some row) db)
    by_status true h =
        rw (h, activate)
          (Steps-trans (activated-Steps id now db row e (ground arith)) (Steps-other refl refl))
    by_status false h = rw (h, activate) (Steps-refl db)

pub set_session_active-After :
    (id : String) (now : ℕ) (w : World) → Fits w → After w (set_session_active id now w)
unfolding set_session_active
set_session_active-After id now w f =
    After-store _ refl f (activate-Steps id now w.store (find_session id w.store) refl)

Shape-count :
    (n : ℕ) (st : SessionStatus) (s : Session)
    → Shape st s
    → Shape st (record s { message_count = n })
Shape-count n SessionStatus.awaiting_join s h = h
Shape-count n SessionStatus.active s h = h
Shape-count n SessionStatus.match_proposed s h = h
Shape-count n SessionStatus.match_confirmed s h = h
Shape-count n SessionStatus.closed s h = h

pub persist_message_count-After :
    (id : String) (n : ℕ) (w : World) → Fits w → After w (persist_message_count id n w)
unfolding persist_message_count
persist_message_count-After id n w f = After-store _ refl f (
    Steps-on_session id _ w.store (λ s. refl) (λ s e h. Shape-count n s.status s h)
      (λ s e. record { id = refl; agent_a = refl; agent_b = refl; request = refl; status = here }))

finish-After :
    (id reason : String) (s : SessionState) (now : ℕ) (w : World)
    → Fits w
    → After w (finish id reason s now w)
unfolding finish
finish-After id reason s now w f =
    After-bind (persist_closed id reason (some s.message_count) now) _ w
      (persist_closed-After id reason _ now w f)
      λ a v g.
        After-bind (hang_up_all (ended_event id reason) s.sockets) _ v
          (After-Silent _ (hang_up_all-Silent _ s.sockets v) g)
          λ b u h. After-Silent _ (on_state-Silent id _ u) h

-- `end_session` from the point where the state is known to be open, self-cancellation included.
end_open-After :
    (caller : Caller) (id reason : String) (s : SessionState) (now : ℕ) (w : World)
    → Fits w
    → After w (end_open caller id reason s now w)
unfolding end_open
end_open-After caller id reason s now w f =
    After-bind (on_state id mark_closed) _ w (After-Silent _ (on_state-Silent id mark_closed w) f)
      λ a v g.
        After-bind (when s.active_metric_counted (on_metrics dec_active_sessions)) _ v
          (when-After s.active_metric_counted v g)
          λ b u h.
            After-if_run u u (cancels_caller caller s && w.db_suspends) _ _ (λ _. After-stay _ h)
              (λ _. finish-After id reason s now u h)
  where
    when-After :
        (b : Bool) (v : World) → Fits v → After v (when b (on_metrics dec_active_sessions) v)
    when-After true v g = After-Silent _ (record { same = record { store = refl; work = refl } }) g
    when-After false v g = After-stay _ g

end_state-After :
    (caller : Caller) (id reason : String) (now : ℕ) (o : Option SessionState) (w : World)
    → Fits w
    → After w (end_state caller id reason now o w)
unfolding end_state
end_state-After caller id reason now none w f = persist_closed-After id reason none now w f
end_state-After caller id reason now (some s) w f =
    After-if_run w w s.closed _ _ (λ _. After-stay _ f)
      (λ _. end_open-After caller id reason s now w f)

pub end_session-After :
    (caller : Caller) (id reason : String) (now : ℕ) (w : World)
    → Fits w
    → After w (end_session caller id reason now w)
unfolding end_session
end_session-After caller id reason now w f =
    end_state-After caller id reason now (get_state id w) w f
