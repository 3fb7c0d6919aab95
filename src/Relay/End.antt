-- ===== src/Relay/End.antt =====
-- relay.py: the end of a session. `end_session`, the two tasks that call it at a deadline
-- (`_monitor_limits`, `_close_after_handoff`) and `schedule_handoff_close`.
-- asyncio: a task that was cancelled, itself included, gets a CancelledError at its next await that
-- suspends; for `end_session` that is the first await of `_persist_closed`.
use babeltower.Prelude.{
  ℕ, ◌+◌, ◌-◌, String, Option, none, some, Bool, true, false, ◌&&◌, List, [], ◌∷◌, if◌then◌else◌,
  ◌==◌, string_eq, leb, contains,
}
use babeltower.Models.{minutes}
use babeltower.World.{World, SessionState, Metrics, Frame, Value, server_event}
use babeltower.Exec.{Exec, Result, ok, err, cancelled_error, pure, raise, on_metrics, when, ◌>>◌}
use babeltower.Relay.Sockets.{safe_send_json, safe_close, get_state, on_state}
use babeltower.Relay.Persist.{persist_closed, active_window}

abbrev pub inactivity_window : ℕ
inactivity_window = minutes 5

-- Who calls `end_session`: a request or a websocket handler, the session's monitor task, its handoff
-- task, or a handoff task that only `_handoff_tasks` holds.
pub data Caller : Type 0 where
  handler monitor session_handoff registry_handoff : Caller

-- Does `state.monitor_task.cancel()` or `state.handoff_task.cancel()` cancel the caller?
unfoldable pub cancels_caller : Caller → SessionState → Bool
cancels_caller handler s = false
cancels_caller monitor s = s.monitor_task
cancels_caller session_handoff s = s.handoff_task
cancels_caller registry_handoff s = false

abbrev pub mark_closed : SessionState → SessionState
mark_closed s = record s { closed = true; active_metric_counted = false }

abbrev pub dec_active_sessions : Metrics → Metrics
dec_active_sessions m = record m { active_sessions = m.active_sessions - 1 }

unfoldable pub ended_event : String → String → Frame
ended_event session_id reason =
    server_event "session_ended" session_id (("reason", Value.text reason) ∷ [])

unfoldable pub hang_up_all : Frame → List (String × ℕ) → Exec (Unit {0})
hang_up_all event [] = pure tt
hang_up_all event ((agent_id, socket) ∷ rest) = do
  safe_send_json socket event
  safe_close socket
  hang_up_all event rest

-- The rest of `end_session`, from `_persist_closed` on.
unfoldable pub finish : String → String → SessionState → ℕ → Exec (Unit {0})
finish session_id reason s now = do
  persist_closed session_id reason (some s.message_count) now
  hang_up_all (ended_event session_id reason) s.sockets
  on_state session_id (λ t. record t { sockets = [] })

unfoldable pub end_open : Caller → String → String → SessionState → ℕ → Exec (Unit {0})
unfolding cancels_caller
end_open caller session_id reason s now w =
    (do
      on_state session_id mark_closed
      when s.active_metric_counted (on_metrics dec_active_sessions)
      if cancels_caller caller s && w.db_suspends
          then raise cancelled_error
          else finish session_id reason s now)
      w

unfoldable pub end_state : Caller → String → String → ℕ → Option SessionState → Exec (Unit {0})
end_state caller session_id reason now none = persist_closed session_id reason none now
end_state caller session_id reason now (some s) =
    if s.closed then pure tt else end_open caller session_id reason s now

unfoldable pub end_session : Caller → String → String → ℕ → Exec (Unit {0})
end_session caller session_id reason now w =
    end_state caller session_id reason now (get_state session_id w) w

-- `except asyncio.CancelledError: return`
abbrev pub until_cancelled : {A : Type 0} → A → Result A × World → Result A × World
until_cancelled a (ok b, w) = (ok b, w)
until_cancelled a (err cancelled_error, w) = (ok a, w)
until_cancelled a (err e, w) = (err e, w)

-- `state.active_at and now - state.active_at >= ACTIVE_WINDOW`
abbrev pub has_elapsed : Option ℕ → ℕ → Bool
has_elapsed none now = false
has_elapsed (some active_at) now = leb (active_at + active_window) now

unfoldable pub monitor_state : String → ℕ → Option SessionState → Exec Bool
monitor_state session_id now none = pure false
monitor_state session_id now (some s) =
    if s.closed
    then pure false
    else if has_elapsed s.active_at now
    then (do end_session monitor session_id "time_limit_reached" now; pure false)
    else if leb (s.last_message_at + inactivity_window) now
    then (do end_session monitor session_id "inactivity" now; pure false)
    else pure true

-- One round of the loop of `_monitor_limits`, after its sleep: does the loop go on?
unfoldable pub monitor_limits : String → ℕ → Exec Bool
monitor_limits session_id now w =
    until_cancelled false (monitor_state session_id now (get_state session_id w) w)

unfoldable pub drop_task : String → List String → List String
drop_task session_id [] = []
drop_task session_id (t ∷ ts) =
    let rest = drop_task session_id ts in if t == session_id then rest else t ∷ rest

-- `_close_after_handoff`, after its sleep of ten minutes, `finally` included.
unfoldable pub close_after_handoff : Caller → String → ℕ → Exec (Unit {0})
unfolding drop_task
close_after_handoff caller session_id now w =
    let (r, w') = until_cancelled tt (end_session caller session_id "handoff_complete" now w) in
    (r, record w' { handoff_tasks = drop_task session_id w'.handoff_tasks })

-- Where the registry has a task for the session, it is cancelled, and the new task's entry goes into
-- its place; the `finally` of the cancelled task, which runs at its next turn, then takes that entry
-- out.
unfoldable pub schedule_state : String → Option SessionState → Exec (Unit {0})
unfolding drop_task contains
schedule_state session_id none w =
    if contains session_id w.handoff_tasks
    then (ok tt, record w { handoff_tasks = drop_task session_id w.handoff_tasks })
    else (ok tt, record w { handoff_tasks = session_id ∷ w.handoff_tasks })
schedule_state session_id (some s) w = on_state session_id (λ t. record t { handoff_task = true }) w

unfoldable pub schedule_handoff_close : String → Exec (Unit {0})
schedule_handoff_close session_id w = schedule_state session_id (get_state session_id w) w
