-- ===== src/Relay/Sockets.antt =====
-- relay.py: sending and closing, `_server_event`, `_safe_send_json`, `_safe_close`, and the access
-- to `SessionManager._states`.
use babeltower.Prelude.{
  ℕ, String, Bool, ◌||◌, Option, [], ◌∷◌, ◌++◌, if◌then◌else◌, ◌==◌, nat_eq, string_eq, find,
  update_row, contains,
}
use babeltower.World.{World, SessionState, Frame, Value, server_event}
use babeltower.Exec.{Exec, Exn, ok, err, runtime_error, websocket_disconnect}

-- A send after a close raises as well.
unfoldable pub is_dead : ℕ → World → Bool
unfolding contains
is_dead socket w = contains socket w.dead || contains socket w.hung_up

-- What a send raises.
abbrev pub send_error : ℕ → World → Exn
send_error socket w = if contains socket w.disconnects then websocket_disconnect else runtime_error

-- Starlette's `send_json`, as the world has it
unfoldable pub send_json : ℕ → Frame → Exec (Unit {0})
unfolding is_dead contains
send_json socket frame w =
    if is_dead socket w
    then (err (send_error socket w), w)
    else (ok tt, record w { sent = w.sent ++ (socket, frame) ∷ [] })

-- `_safe_send_json`
unfoldable pub safe_send_json : ℕ → Frame → Exec (Unit {0})
unfolding send_json
safe_send_json socket frame w = (ok tt, (send_json socket frame w).1)

-- `_safe_close`
unfoldable pub safe_close : ℕ → Exec (Unit {0})
unfolding is_dead
safe_close socket w =
    if is_dead socket w then (ok tt, w) else (ok tt, record w { hung_up = socket ∷ w.hung_up })

-- `_ERROR_MESSAGES`
unfoldable pub error_message : String → String
error_message code =
    if code == "message_too_large"
    then "Frame exceeds 16 KB; split into smaller messages."
    else if code == "bad_json"
    then "Frame is not valid JSON."
    else if code == "unsupported_type"
    then "Only type='message' is accepted after hello."
    else if code == "session_mismatch"
    then "session_id in envelope does not match this connection."
    else if code == "session_closed"
    then "Session is closed; reconnect not possible."
    else if code == "buffer_full"
    then "Counterparty is offline and the pre-join buffer is full."
    else "Server error."

-- `_server_event("error", session_id, {"code": code})`, with the default message filled in.
unfoldable pub error_event : String → String → Frame
unfolding error_message
error_event session_id code =
    server_event "error" session_id
      (("code", Value.text code) ∷ ("message", Value.text (error_message code)) ∷ [])

-- `self._states.get(session_id)`
unfoldable pub get_state : String → World → Option SessionState
unfolding find
get_state session_id w = find (λ s. s.session_id == session_id) w.states

-- A change of the state object, which every holder of a reference to it sees.
unfoldable pub on_state : String → (SessionState → SessionState) → Exec (Unit {0})
unfolding update_row
on_state session_id f w =
    (ok tt, record w { states = update_row (λ s. s.session_id == session_id) f w.states })
