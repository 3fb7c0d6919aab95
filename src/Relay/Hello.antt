-- ===== src/Relay/Hello.antt =====
-- relay.py: the handshake of a websocket, `_receive_hello`, `_authenticate_hello` and the part of
-- `handle_websocket` before the loop over the frames.
use babeltower.Prelude.{
  ℕ, String, len, ◌<>◌, Option, none, some, Bool, true, ◌&&◌, ◌||◌, not, List, [], ◌∷◌, map,
  if◌then◌else◌, ◌==◌, ◌!=◌, nat_eq, string_eq, ltb, lookup, find, select, contains,
}
use babeltower.Models.{
  Agent, Session, AgentStatus, SessionStatus, agent_status_eq, session_status_eq,
}
use babeltower.World.{SessionState, Value, Object, ready}
use babeltower.Exec.{
  Exec, ok, err, runtime_error, attribute_error, type_error, pure, raise, ◌>>=◌, ◌>>◌,
  scalar_one_or_none,
}
use babeltower.Clock.{Moment, parse_timestamp, is_stale}
use babeltower.Crypto.{CryptoLib, verify}
use babeltower.Relay.Sockets.{send_json, is_dead, get_state}
use babeltower.Relay.Persist.{find_session}
use babeltower.Relay.Messages.{
  Parsed, bad_json, scalar, sequence, object, differs, max_frame_bytes, flush_for_joined_agent,
}
use babeltower.Relay.Join.{join}

-- `websocket.close(code=HELLO_CLOSE_CODE)`
unfoldable pub close_socket : ℕ → Exec (Unit {0})
unfolding is_dead
close_socket socket w =
    if is_dead socket w
    then (err runtime_error, w)
    else (ok tt, record w { hung_up = socket ∷ w.hung_up })

abbrev required : List String
required = "type" ∷ "agent_pubkey" ∷ "session_id" ∷ "timestamp" ∷ "signature" ∷ []

-- `required.issubset(keys)`
covers : List String → List String → Bool
unfolding contains
covers [] keys = true
covers (r ∷ rs) keys = contains r keys && covers rs keys

abbrev refuse : {A : Type 0} → ℕ → Exec (Option A)
refuse socket = do close_socket socket; pure none

unfoldable pub receive_parsed : ℕ → String → Parsed → Exec (Option Object)
unfolding covers lookup
receive_parsed socket session_id bad_json = refuse socket
receive_parsed socket session_id scalar = raise type_error
receive_parsed socket session_id (sequence items) =
    if covers required items then raise attribute_error else refuse socket
receive_parsed socket session_id (object hello) =
    if not (covers required (map (λ f. f.0) hello)) || differs hello "type" "hello"
    then refuse socket
    else if differs hello "session_id" session_id
    then refuse socket
    else pure (some hello)

-- `_receive_hello`, on the first frame
unfoldable pub receive_hello : (String → Parsed) → ℕ → String → String → Exec (Option Object)
receive_hello json_loads socket session_id raw =
    if ltb max_frame_bytes (len raw)
    then refuse socket
    else receive_parsed socket session_id (json_loads raw)

-- The last tests of `_authenticate_hello`, on the rows that it loads.
unfoldable pub may_join : Option Agent → Option Session → Option (Session × Agent)
may_join none row = none
may_join (some agent) none = none
may_join (some agent) (some row) =
    if agent.status == AgentStatus.hard_banned || agent.status == AgentStatus.deleted
    then none
    else if agent.id != row.agent_a_id && agent.id != row.agent_b_id
    then none
    else if row.status == SessionStatus.closed
    then none
    else some (row, agent)

unfoldable pub load_member : String → String → Exec (Option (Session × Agent))
unfolding select find
load_member agent_pubkey session_id w =
    (do
      agent ← scalar_one_or_none (select (λ a. a.pubkey == agent_pubkey) w.store.agents)
      pure (may_join agent (find_session session_id w.store)))
      w

module _ (lib : CryptoLib) (from_isoformat : String → Moment) where
  -- `verify` on a key or a signature that is no text: the key is decoded first.
  unfoldable pub verify_fails : Value → Exec (Option (Session × Agent))
  verify_fails (Value.text pubkey) = elim (lib.b64decode pubkey) [
    | none ↦ pure none
    | some key ↦ raise type_error
  ]
  verify_fails pubkey = raise type_error

  -- The fields are texts: another value makes `value.replace` or `b64decode` raise.
  unfoldable pub authenticate_texts :
      Value → Value → Value → String → ℕ → Exec (Option (Session × Agent))
  authenticate_texts (Value.text pubkey) (Value.text timestamp) (Value.text signature) session_id
        now =
      elim (parse_timestamp from_isoformat timestamp) [
        | none ↦ pure none
        | some t ↦
            if is_stale now t
            then pure none
            else if verify lib pubkey (lib.encode ("hello\n" <> session_id <> "\n" <> timestamp))
                signature
            then load_member pubkey session_id
            else pure none
      ]
  authenticate_texts pubkey (Value.text timestamp) signature session_id now =
      elim (parse_timestamp from_isoformat timestamp) [
        | none ↦ pure none
        | some t ↦ if is_stale now t then pure none else verify_fails pubkey
      ]
  authenticate_texts pubkey timestamp signature session_id now = raise attribute_error

  field : String → Object → Value
  unfolding lookup
  field key o = elim (lookup key o) [ none ↦ Value.null | some v ↦ v ]

  -- `_authenticate_hello`; `_receive_hello` has seen to it that the keys are there.
  unfoldable pub authenticate_hello : String → Object → ℕ → Exec (Option (Session × Agent))
  unfolding field
  authenticate_hello session_id hello now =
      authenticate_texts (field "agent_pubkey" hello) (field "timestamp" hello)
        (field "signature" hello) session_id now

  unfoldable pub flush_state : String → Option SessionState → Exec (Unit {0})
  flush_state agent_id none = pure tt
  flush_state agent_id (some s) = flush_for_joined_agent s agent_id

  unfoldable pub flush_joined : String → String → Exec (Unit {0})
  flush_joined session_id agent_id w = flush_state agent_id (get_state session_id w) w

  unfoldable pub admit : ℕ → String → ℕ → Option (Session × Agent) → Exec (Option String)
  admit socket session_id now none = refuse socket
  admit socket session_id now (some (row, agent)) = do
    join socket row agent.id now
    send_json socket (ready session_id)
    flush_joined session_id agent.id
    pure (some agent.id)

  unfoldable pub greet : ℕ → String → ℕ → Option Object → Exec (Option String)
  greet socket session_id now none = pure none
  greet socket session_id now (some hello) = do
    member ← authenticate_hello session_id hello now
    admit socket session_id now member

  -- `handle_websocket` up to its loop: the agent that has joined, if any.
  unfoldable pub open_websocket : (String → Parsed) → ℕ → String → String → ℕ → Exec (Option String)
  open_websocket json_loads socket session_id raw now = do
    hello ← receive_hello json_loads socket session_id raw
    greet socket session_id now hello
