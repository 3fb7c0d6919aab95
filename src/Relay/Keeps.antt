-- ===== src/Relay/Keeps.antt =====
-- What the end of a session, `end_session` of src/babeltower/relay.py, keeps of the database: whatever
-- closing a session's row keeps.
use babeltower.Prelude.{
  ℕ, String, sym, subst, Option, none, some, Bool, true, false, ◌&&◌, string_eq,
}
use babeltower.Models.{Db}
use babeltower.World.{World, SessionState}
use babeltower.Exec.{Result, pure, raise, cancelled_error, when, on_metrics}
use babeltower.Exec.Keeps.{Keeps, bind-Keeps, if-Keeps}
use babeltower.Relay.Sockets.{get_state, on_state}
use babeltower.Relay.Persist.{on_session, closed_row, persist_closed}
use babeltower.Relay.End.{
  Caller, cancels_caller, mark_closed, dec_active_sessions, ended_event, hang_up_all, finish,
  end_open, end_state, end_session,
}
use babeltower.Lifecycle.Silent.{Silent, hang_up_all-Silent, on_state-Silent}

-- Closing the row of any session keeps the property.
abbrev pub Outlasts : (Db → Type 0) → Type 0
Outlasts P =
    (id reason : String) (count : Option ℕ) (now : ℕ) (db : Db)
    → P db
    → P (on_session id (closed_row now reason count) db)

module _ (P : Db → Type 0) (closing : Outlasts P) where
  Silent-Keeps :
      {A : Type 0} (w : World) (p : Result A × World)
      → Silent w p
      → P w.store
      → P w.work
      → Keeps P p
  Silent-Keeps w p q h k = (subst P (sym q.same.store) h, subst P (sym q.same.work) k)

  module _ (caller : Caller) (id reason : String) (now : ℕ) where
    persist_closed-Keeps :
        (count : Option ℕ) (w : World) → P w.store → Keeps P (persist_closed id reason count now w)
    unfolding persist_closed
    persist_closed-Keeps count w h =
        (closing id reason count now w.store h, closing id reason count now w.store h)

    finish-Keeps : (s : SessionState) (w : World) → P w.store → Keeps P (finish id reason s now w)
    unfolding finish
    finish-Keeps s w h =
        bind-Keeps P (persist_closed id reason (some s.message_count) now) _ w
          (persist_closed-Keeps (some s.message_count) w h)
          λ a v g k.
            bind-Keeps P (hang_up_all (ended_event id reason) s.sockets) _ v
              (Silent-Keeps v _ (hang_up_all-Silent _ s.sockets v) g k)
              λ b u i j. Silent-Keeps u _ (on_state-Silent id _ u) i j

    counted-Keeps :
        (b : Bool) (w : World)
        → P w.store
        → P w.work
        → Keeps P (when b (on_metrics dec_active_sessions) w)
    counted-Keeps true w h k = (h, k)
    counted-Keeps false w h k = (h, k)

    end_open-Keeps :
        (s : SessionState) (w : World)
        → P w.store
        → P w.work
        → Keeps P (end_open caller id reason s now w)
    unfolding end_open
    end_open-Keeps s w h k =
        bind-Keeps P (on_state id mark_closed) _ w
          (Silent-Keeps w _ (on_state-Silent id mark_closed w) h k)
          λ a v g j.
            bind-Keeps P (when s.active_metric_counted (on_metrics dec_active_sessions)) _ v
              (counted-Keeps s.active_metric_counted v g j)
              λ b u i l.
                if-Keeps P (cancels_caller caller s && w.db_suspends) (raise cancelled_error)
                  (finish id reason s now) u (i, l) (λ _. finish-Keeps s u i)

    end_state-Keeps :
        (o : Option SessionState) (w : World)
        → P w.store
        → P w.work
        → Keeps P (end_state caller id reason now o w)
    unfolding end_state
    end_state-Keeps none w h k = persist_closed-Keeps none w h
    end_state-Keeps (some s) w h k =
        if-Keeps P s.closed (pure tt) (end_open caller id reason s now) w (h, k)
          (λ _. end_open-Keeps s w h k)

    pub end_session-Keeps :
        (w : World) → P w.store → P w.work → Keeps P (end_session caller id reason now w)
    unfolding end_session
    end_session-Keeps w h k = end_state-Keeps (get_state id w) w h k
