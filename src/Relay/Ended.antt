-- ===== src/Relay/Ended.antt =====
-- What the end of a session of the relay leaves: `end_session` and `_monitor_limits` of
-- src/babeltower/relay.py.
use babeltower.Prelude.{
  ℕ, ◌+◌, ◌≤◌, String, ◌≡◌, refl, some, Bool, true, false, ◌&&◌, List, [], ◌∷◌, arith, ◌==◌,
  string_eq, inl, inr, Bool-cases, if◌then◌else◌, find-update_row, leb,
}
use babeltower.World.{World, SessionState, Frame}
use babeltower.Exec.{Exec, ok, err, cancelled_error, when, on_metrics, pure, raise}
use babeltower.Relay.Sockets.{get_state, on_state, safe_send_json, safe_close, send_json, is_dead}
use babeltower.Relay.Persist.{persist_closed, active_window}
use babeltower.Relay.End.{
  Caller, monitor, cancels_caller, mark_closed, dec_active_sessions, ended_event, hang_up_all,
  finish, end_open, end_state, end_session, monitor_state, monitor_limits,
}

-- The state object of the session says that it is closed.
abbrev pub IsOver : String → World → Type 0
IsOver id w = (s : SessionState) × (get_state id w ≡ some s) × (s.closed ≡ true)

on_state-get_state :
    (id : String) (f : SessionState → SessionState) (w : World) {s : SessionState}
    → ((t : SessionState) → (f t).session_id ≡ t.session_id)
    → get_state id w ≡ some s
    → get_state id (on_state id f w).1 ≡ some (f s)
unfolding get_state on_state
on_state-get_state id f w k e =
    find-update_row (λ s. s.session_id == id) f w.states (λ t h. rw (k t) h) e

safe_send_json-states :
    (socket : ℕ) (event : Frame) (w : World) → (safe_send_json socket event w).1.states ≡ w.states
unfolding safe_send_json send_json
safe_send_json-states socket event w = elim (Bool-cases (is_dead socket w)) [
  | inl t ↦ rw t refl
  | inr t ↦ rw t refl
]

safe_close-ok :
    (socket : ℕ) (w : World)
    → ((safe_close socket w).0 ≡ ok tt) × ((safe_close socket w).1.states ≡ w.states)
unfolding safe_close
safe_close-ok socket w = elim (Bool-cases (is_dead socket w)) [
  | inl t ↦ rw t (refl, refl)
  | inr t ↦ rw t (refl, refl)
]

-- Hanging up succeeds and leaves the session objects alone.
pub hang_up_all-ok :
    (event : Frame) (sockets : List (String × ℕ)) (w : World)
    → ((hang_up_all event sockets w).0 ≡ ok tt)
      × ((hang_up_all event sockets w).1.states ≡ w.states)
unfolding hang_up_all safe_send_json
hang_up_all-ok event [] w = (refl, refl)
hang_up_all-ok event ((m, socket) ∷ rest) w =
    let u = (safe_send_json socket event w).1 in
    let v = (safe_close socket u).1 in
    let closing = safe_close-ok socket u in
    let others = hang_up_all-ok event rest v in
    (
      rw closing.0 others.0,
      rw (closing.0, others.1, closing.1) (safe_send_json-states socket event w),
    )

-- An end that runs through leaves the session's object closed and without sockets.
finish-IsOver :
    (id reason : String) (s t : SessionState) (now : ℕ) (w : World)
    → get_state id w ≡ some t
    → t.closed ≡ true
    → ((finish id reason s now w).0 ≡ ok tt) × IsOver id (finish id reason s now w).1
unfolding finish persist_closed get_state on_state
finish-IsOver id reason s t now w e c =
    let stored = (persist_closed id reason (some s.message_count) now w).1 in
    let hung = hang_up_all-ok (ended_event id reason) s.sockets stored in
    let cleared = record t { sockets = [] } in
    let found =
      on_state-get_state id (λ t. record t { sockets = [] })
        (hang_up_all (ended_event id reason) s.sockets stored).1 {s = t} (λ t. refl)
        (rw hung.1 e) in
    (rw hung.0 refl, (cleared, rw hung.0 found, c))

-- The world once `state.closed` is set and the gauge is down.
abbrev pub metered : Bool → World → World
metered true w = record w { metrics = dec_active_sessions w.metrics }
metered false w = w

when-metered :
    (b : Bool) (w : World) → when b (on_metrics dec_active_sessions) w ≡ (ok tt, metered b w)
when-metered true w = refl
when-metered false w = refl

pub metered-states : (b : Bool) (w : World) → (metered b w).states ≡ w.states
metered-states true w = refl
metered-states false w = refl

abbrev pub marked : String → SessionState → World → World
marked id s w = metered s.active_metric_counted (on_state id mark_closed w).1

marked-get_state :
    (id : String) (s : SessionState) (w : World)
    → get_state id w ≡ some s
    → get_state id (marked id s w) ≡ some (mark_closed s)
unfolding get_state
marked-get_state id s w e =
    rw (metered-states s.active_metric_counted (on_state id mark_closed w).1)
      (on_state-get_state id mark_closed w {s = s} (λ t. refl) e)

pub if-run :
    {A : Type 0} (b : Bool) (f g : Exec A) (w : World)
    → (if b then f else g) w ≡ (if b then f w else g w)
if-run true f g w = refl
if-run false f g w = refl

metered-db_suspends : (b : Bool) (w : World) → (metered b w).db_suspends ≡ w.db_suspends
metered-db_suspends true w = refl
metered-db_suspends false w = refl

pub end_open-cases :
    (caller : Caller) (id reason : String) (s : SessionState) (now : ℕ) (w : World)
    → end_open caller id reason s now w ≡ (
        if cancels_caller caller s && w.db_suspends
        then (err cancelled_error, marked id s w)
        else finish id reason s now (marked id s w))
unfolding end_open on_state
end_open-cases caller id reason s now w =
    simp (when-metered s.active_metric_counted (on_state id mark_closed w).1) (
      if-run (cancels_caller caller s && w.db_suspends) (raise cancelled_error)
        (finish id reason s now) (marked id s w))

end_open-IsOver :
    (caller : Caller) (id reason : String) (s : SessionState) (now : ℕ) (w : World)
    → get_state id w ≡ some s
    → IsOver id (end_open caller id reason s now w).1
end_open-IsOver caller id reason s now w e =
    rw (end_open-cases caller id reason s now w)
      (elim (Bool-cases (cancels_caller caller s && w.db_suspends)) [
        | inl t ↦ rw t (mark_closed s, marked-get_state id s w e, refl)
        | inr t ↦
            rw t
              (finish-IsOver id reason s (mark_closed s) now (marked id s w)
                (marked-get_state id s w e) refl).1
      ])

end_state-IsOver :
    (caller : Caller) (id reason : String) (now : ℕ) (w : World) (s : SessionState)
    → get_state id w ≡ some s
    → IsOver id (end_state caller id reason now (some s) w).1
unfolding end_state
end_state-IsOver caller id reason now w s e = go s.closed refl
  where
    go :
        (b : Bool)
        → s.closed ≡ b
        → IsOver id ((if b then pure tt else end_open caller id reason s now) w).1
    go true c = (s, e, c)
    go false c = end_open-IsOver caller id reason s now w e

pub end_session-IsOver :
    (caller : Caller) (id reason : String) (now : ℕ) (w : World) {s : SessionState}
    → get_state id w ≡ some s
    → IsOver id (end_session caller id reason now w).1
unfolding end_session
end_session-IsOver caller id reason now w {s} e = rw e (end_state-IsOver caller id reason now w s e)

over-end_session :
    (caller : Caller) (id reason : String) (now : ℕ) (w : World)
    → IsOver id w
    → end_session caller id reason now w ≡ (ok tt, w)
unfolding end_session end_state
over-end_session caller id reason now w (s, e, c) = rw (e, c) refl

-- Ending a session that the relay holds is idempotent: after one call of `end_session`, by whichever
-- task and even where that call is cancelled, any further call, for any reason, by any task and at any
-- time, returns and changes nothing.
pub end_session_once :
    (first second : Caller) (id reason other : String) (now later : ℕ) (w : World)
    (s : SessionState)
    → get_state id w ≡ some s
    → end_session second id other later (end_session first id reason now w).1
      ≡ (ok tt, (end_session first id reason now w).1)
end_session_once first second id reason other now later w s e =
    over-end_session second id other later _ (end_session-IsOver first id reason now w e)

-- What the monitor task leaves behind when it cancels itself.
pub record IsStranded (id : String) (w v : World) : Type 0 where
  pub store : v.store ≡ w.store
  pub sent : v.sent ≡ w.sent
  pub hung_up : v.hung_up ≡ w.hung_up
  pub over : IsOver id v

metered-IsStranded :
    (id : String) (b : Bool) (w v : World) → IsStranded id w v → IsStranded id w (metered b v)
unfolding get_state
metered-IsStranded id true w v h = record {
  store = h.store;
  sent = h.sent;
  hung_up = h.hung_up;
  over = h.over;
}
metered-IsStranded id false w v h = h

stranded :
    (id : String) (s : SessionState) (w : World)
    → get_state id w ≡ some s
    → IsStranded id w (marked id s w)
unfolding on_state
stranded id s w e =
    metered-IsStranded id s.active_metric_counted w (on_state id mark_closed w).1 (record {
      store = refl;
      sent = refl;
      hung_up = refl;
      over = (mark_closed s, on_state-get_state id mark_closed w {s = s} (λ t. refl) e, refl);
    })

-- Where the awaits of the database suspend and an open session has its monitor task, a round of that
-- task after thirty minutes ends the task, but the session's row is not closed, no member is told and
-- no websocket is closed; the object in memory says that the session is over, so that no later call
-- of `end_session` makes up for it.
pub monitor_limits-IsStranded :
    (id : String) (now active_at : ℕ) (s : SessionState) (w : World)
    → get_state id w ≡ some s
    → s.closed ≡ false
    → s.monitor_task ≡ true
    → w.db_suspends ≡ true
    → s.active_at ≡ some active_at
    → active_at + active_window ≤ now
    → ((monitor_limits id now w).0 ≡ ok false) × IsStranded id w (monitor_limits id now w).1
unfolding monitor_limits monitor_state end_session end_state cancels_caller
monitor_limits-IsStranded id now active_at s w e c m d a h =
    let elapsed : leb (active_at + active_window) now ≡ true = ground (arith, h) in
    simp (e, c, a, elapsed, end_open-cases monitor id "time_limit_reached" s now w, m, d)
      (refl, stranded id s w e)
