-- ===== src/Relay/Messages.antt =====
-- relay.py: frames of the clients and events for them. `_handle_frame`, `_flush_for_joined_agent`,
-- and the two emitters.
use Prim.Native.Nat.{◌%◌}
use babeltower.Prelude.{
  ℕ, ◌+◌, ◌*◌, String, len, Option, none, some, Bool, true, List, [], ◌∷◌, ◌++◌, if◌then◌else◌,
  ◌==◌, ◌!=◌, nat_eq, string_eq, leb, ltb, lookup, insert, length, select,
}
use babeltower.World.{SessionState, Metrics, Frame, Value, Object, server_event, envelope}
use babeltower.Exec.{Exec, attribute_error, pure, raise, on_metrics, when, ◌>>◌}
use babeltower.Relay.Sockets.{send_json, error_event, get_state, on_state}
use babeltower.Relay.Persist.{persist_message_count}
use babeltower.Relay.End.{end_session, handler}

abbrev pub message_cap : ℕ
message_cap = 50

abbrev pub max_frame_bytes : ℕ
max_frame_bytes = 16 * 1024

abbrev pub buffer_limit : ℕ
buffer_limit = 10

-- What `json.loads` returns: it raises JSONDecodeError, or returns an object, a number, Boolean or
-- null (`scalar`), or an array or text, of which the texts in it matter.
pub data Parsed : Type 0 where
  bad_json scalar : Parsed
  sequence : List String → Parsed
  object : Object → Parsed

abbrev pub value_differs : Option Value → String → Bool
value_differs none text = true
value_differs (some (Value.text t)) text = t != text
value_differs (some v) text = true

-- `envelope.get(key) != text`
abbrev pub differs : Object → String → String → Bool
differs o key text = value_differs (lookup key o) text

abbrev pub text_or : Option String → Option Value → Value
text_or (some t) v = Value.text t
text_or none (some v) = v
text_or none none = Value.null

-- `envelope["from"] = pubkeys.get(agent.id, envelope.get("from"))`
unfoldable pub stamped : SessionState → String → Object → Object
stamped s agent_id o =
    insert "from" (text_or (lookup agent_id s.pubkeys_by_agent_id) (lookup "from" o)) o

unfoldable pub others : SessionState → String → List String
unfolding select
others s agent_id = select (λ m. m != agent_id) s.member_ids

abbrev pub or_nil : Option (List Object) → List Object
or_nil none = []
or_nil (some b) = b

abbrev pub buffer_of : SessionState → String → List Object
buffer_of s agent_id = or_nil (lookup agent_id s.buffers)

abbrev pub set_buffer : String → List Object → SessionState → SessionState
set_buffer agent_id b s = record s { buffers = insert agent_id b s.buffers }

-- The recipient is offline: the envelope waits in the sender's buffer.
unfoldable pub hold : SessionState → String → ℕ → Object → Exec (Unit {0})
hold s agent_id socket o =
    if leb buffer_limit (length (buffer_of s agent_id))
    then send_json socket (error_event s.session_id "buffer_full")
    else on_state s.session_id (set_buffer agent_id (buffer_of s agent_id ++ o ∷ []))

-- One recipient, whose socket is known or not.
unfoldable pub pass_on : SessionState → String → ℕ → Object → Option ℕ → Exec (Unit {0})
pass_on s agent_id socket o none = hold s agent_id socket o
pass_on s agent_id socket o (some recipient) = send_json recipient (envelope o)

-- `for recipient_id in recipients`
unfoldable pub deliver : SessionState → String → ℕ → Object → List String → Exec (Unit {0})
deliver s agent_id socket o [] = pure tt
deliver s agent_id socket o (r ∷ rest) = do
  pass_on s agent_id socket o (lookup r s.sockets)
  deliver s agent_id socket o rest

abbrev pub counted : ℕ → SessionState → SessionState
counted now s = record s { message_count = s.message_count + 1; last_message_at = now }

abbrev inc_messages_relayed : Metrics → Metrics
inc_messages_relayed m = record m { messages_relayed_total = m.messages_relayed_total + 1 }

-- `messages_relayed_total.inc()`
unfoldable pub count_relayed : Exec (Unit {0})
count_relayed = on_metrics inc_messages_relayed

-- The message counts, whether it is delivered, held or dropped.
unfoldable pub relay_message : SessionState → String → ℕ → Object → ℕ → Exec (Unit {0})
relay_message s agent_id socket o now = do
  on_state s.session_id (counted now)
  when ((s.message_count + 1) % 10 == 0) (persist_message_count s.session_id (s.message_count + 1))
  count_relayed
  deliver (counted now s) agent_id socket (stamped s agent_id o) (others s agent_id)

-- The part of `_handle_frame` under the session's lock, and the end of a session at the cap.
unfoldable pub under_lock : SessionState → String → ℕ → Object → ℕ → Exec (Unit {0})
under_lock s agent_id socket o now =
    if s.closed
    then send_json socket (error_event s.session_id "session_closed")
    else if leb message_cap s.message_count
    then end_session handler s.session_id "message_cap_reached" now
    else relay_message s agent_id socket o now

unfoldable pub handle_object : SessionState → String → ℕ → Object → ℕ → Exec (Unit {0})
unfolding lookup
handle_object s agent_id socket o now =
    if differs o "type" "message"
    then send_json socket (error_event s.session_id "unsupported_type")
    else if differs o "session_id" s.session_id
    then send_json socket (error_event s.session_id "session_mismatch")
    else under_lock s agent_id socket o now

unfoldable pub handle_parsed : SessionState → String → ℕ → Parsed → ℕ → Exec (Unit {0})
handle_parsed s agent_id socket bad_json now =
    send_json socket (error_event s.session_id "bad_json")
handle_parsed s agent_id socket scalar now = raise attribute_error
handle_parsed s agent_id socket (sequence items) now = raise attribute_error
handle_parsed s agent_id socket (object o) now = handle_object s agent_id socket o now

-- `_handle_frame`. `s` is the state object of the session, as it is when the frame comes; `raw` is
-- the frame and `json_loads` the library's parser.
unfoldable pub handle_frame :
    (String → Parsed) → SessionState → String → ℕ → String → ℕ → Exec (Unit {0})
handle_frame json_loads s agent_id socket raw now =
    if ltb max_frame_bytes (len raw)
    then send_json socket (error_event s.session_id "message_too_large")
    else handle_parsed s agent_id socket (json_loads raw) now

-- `while buffered: await websocket.send_json(buffered.pop(0))`
unfoldable pub flush_buffer : String → String → ℕ → List Object → Exec (Unit {0})
flush_buffer session_id sender_id socket [] = pure tt
flush_buffer session_id sender_id socket (o ∷ rest) = do
  on_state session_id (set_buffer sender_id rest)
  send_json socket (envelope o)
  flush_buffer session_id sender_id socket rest

-- `for sender_id in state.member_ids - {joined_agent_id}`
unfoldable pub flush_from : SessionState → ℕ → List String → Exec (Unit {0})
flush_from s socket [] = pure tt
flush_from s socket (m ∷ rest) = do
  flush_buffer s.session_id m socket (buffer_of s m)
  flush_from s socket rest

unfoldable pub flush_to : SessionState → String → Option ℕ → Exec (Unit {0})
flush_to s agent_id none = pure tt
flush_to s agent_id (some socket) = flush_from s socket (others s agent_id)

-- `_flush_for_joined_agent`
unfoldable pub flush_for_joined_agent : SessionState → String → Exec (Unit {0})
flush_for_joined_agent s agent_id = flush_to s agent_id (lookup agent_id s.sockets)

unfoldable pub send_to : Frame → Option ℕ → Exec (Unit {0})
send_to event none = pure tt
send_to event (some socket) = send_json socket event

unfoldable pub send_members : SessionState → Frame → List String → Exec (Unit {0})
send_members s event [] = pure tt
send_members s event (m ∷ rest) = do send_to event (lookup m s.sockets); send_members s event rest

unfoldable pub send_all : Frame → List (String × ℕ) → Exec (Unit {0})
send_all event [] = pure tt
send_all event ((m, socket) ∷ rest) = do send_json socket event; send_all event rest

unfoldable pub emit_to_others : String → Frame → Option SessionState → Exec (Unit {0})
emit_to_others from_id event none = pure tt
emit_to_others from_id event (some s) = send_members s event (others s from_id)

-- `emit_to_counterparty`
unfoldable pub emit_to_counterparty : String → String → String → Object → Exec (Unit {0})
emit_to_counterparty session_id from_id event_type body w =
    emit_to_others from_id (server_event event_type session_id body) (get_state session_id w) w

unfoldable pub emit_to_sockets : Frame → Option SessionState → Exec (Unit {0})
emit_to_sockets event none = pure tt
emit_to_sockets event (some s) = send_all event s.sockets

-- `emit_to_session`
unfoldable pub emit_to_session : String → String → Object → Exec (Unit {0})
emit_to_session session_id event_type body w =
    emit_to_sockets (server_event event_type session_id body) (get_state session_id w) w
