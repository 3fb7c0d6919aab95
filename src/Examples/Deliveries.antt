-- ===== src/Examples/Deliveries.antt =====
-- The theorems on the relay's buffers and its monitor, on blocks and on the access log at concrete inputs.
use babeltower.Prelude.{
  suc, ℕ, ◌≡◌, ◌≢◌, refl, some, none, true, List, [], ◌∷◌, ◌++◌, map, arith, In, find, select,
  lookup, string_eq,
}
use babeltower.Models.{days, Session, SessionStatus}
use babeltower.World.{World, SessionState, Object, Value}
use babeltower.Exec.{ok, err, runtime_error, run, pure, scalar_one_or_none}
use babeltower.Clock.{Moment}
use babeltower.Auth.{get_agent_by_pubkey}
use babeltower.Blocks.{unblock_agent, unblock_target, delete_block_row, drop_block}
use babeltower.Blocks.Listed.{get_blocks, unblock_agent-IsUnlisted}
use babeltower.Schemas.{BlockResponse, BlocksResponse}
use babeltower.Relay.Sockets.{get_state, is_dead}
use babeltower.Relay.Messages.{Parsed, others, stamped, buffer_of}
use babeltower.Relay.Hello.{admit}
use babeltower.Relay.Delivered.{IsApart}
use babeltower.Relay.Ended.{IsOver}
use babeltower.Relay.Lost.{HoldsDead, admit-HoldsDead}
use babeltower.Relay.Monitor.{Loop, monitor_loop, monitor_loop-ends}
use babeltower.Lifecycle.Calls.{Services, serve}
use babeltower.Lifecycle.Calls.Delivery.{Posted, arrival, sends_all, serve-IsDelivered}
use babeltower.Logging.{AccessLog, AccessLine, LoggedRequest, structured_access_log_middleware}
use babeltower.Logging.Prefixes.{IsDiscreet, structured_access_log_middleware-IsDiscreet}
use babeltower.Examples.{small_world, small_db, closed_session, open_state, services, alice, bob}

abbrev hello : Object
hello =
    ("type", Value.text "message")
    ∷ ("session_id", Value.text "t")
    ∷ ("body", Value.text "hello")
    ∷ []

-- A parser that reads every frame as this message.
abbrev talking : Services
talking = record services { json_loads = λ raw. Parsed.object hello }

-- Bob is away.
abbrev apart_state : SessionState
apart_state = record open_state { sockets = ("a", 1) ∷ [] }

abbrev apart_world : World
apart_world = record small_world { states = apart_state ∷ [] }

abbrev row : Session
row = record closed_session { id = "t"; status = SessionStatus.active }

abbrev posts : List Posted
posts =
    record { raw = "hello"; content = hello; at = days 10 }
    ∷ record { raw = "hello!"; content = hello; at = days 10 }
    ∷ []

apart_state-IsApart : IsApart "a" "b" apart_state
unfolding others select lookup
apart_state-IsApart = record { is_open = refl; away = refl; recipients = refl; senders = refl }

serve-IsDelivered_example :
    let joins =
      admit talking.crypto
        (λ text. Moment.aware (days 10))
        3
        "t"
        (days 10)
        (some (row, bob))
        (serve talking (sends_all "t" "a" 1 posts) apart_world) in
    (joins.0 ≡ ok (some "b"))
    × (joins.1.sent
        ≡ arrival "t" 3
            (buffer_of apart_state "a" ++ map (λ p. stamped apart_state "a" p.content) posts))
unfolding get_state find is_dead lookup
serve-IsDelivered_example =
    serve-IsDelivered talking (λ text. Moment.aware (days 10)) row bob "a" 1 3 (days 10) posts
      apart_state apart_world refl apart_state-IsApart refl
      ((omega arith, refl, refl, refl), ((omega arith, refl, refl, refl), tt)) (omega arith)
      (omega arith)

-- Alice has blocked Bob.
abbrev blocked_world : World
blocked_world = record small_world {
  store = record small_db {
    blocks =
        record { id = "x"; blocker_id = "a"; blocked_id = "b"; reason = none; created_at = days 9 }
        ∷ [];
  };
}

unblock_agent-IsUnlisted_example :
    (list : BlocksResponse) × ((run
        (get_blocks alice)
        (run (unblock_agent alice "key-b") blocked_world).1).0
      ≡ ok list)
    × ((r : BlockResponse) → In r list.blocks → r.target_agent_pubkey ≢ "key-b")
unfolding unblock_agent unblock_target delete_block_row drop_block get_agent_by_pubkey select
    scalar_one_or_none
unblock_agent-IsUnlisted_example = unblock_agent-IsUnlisted alice "key-b" blocked_world refl

abbrev logged : LoggedRequest
logged = record {
  method = "GET";
  path = "/v1/inbox";
  x_agent_pubkey = some "key-of-a-stranger";
  agent = none;
}

abbrev empty_log : AccessLog
empty_log = record { lines = []; tags = [] }

structured_access_log_middleware-IsDiscreet_example :
    let p =
      structured_access_log_middleware true
        (λ (n : ℕ). n)
        logged
        "0.1"
        (pure 200)
        small_world
        empty_log in
    (p.0 ≡ (ok 200, small_world))
    × ((line : AccessLine) × (p.1.lines ≡ line ∷ [])
        × (line.method ≡ logged.method)
        × (line.path ≡ logged.path)
        × (line.status_code ≡ 200))
    × IsDiscreet p.1
structured_access_log_middleware-IsDiscreet_example =
    structured_access_log_middleware-IsDiscreet true (λ (n : ℕ). n) logged "0.1" (pure 200)
      small_world empty_log (record { lines = tt; tags = tt })

monitor_loop-ends_example :
    (v : World) × (monitor_loop (λ now w. w) "t" (suc 359) (days 10) small_world ≡ Loop.ended v)
    × IsOver "t" v
unfolding get_state find
monitor_loop-ends_example =
    monitor_loop-ends (λ now w. w) "t" (days 10) (λ now w h. h) 359 (days 10) small_world
      (open_state, refl, refl) (omega arith)

admit-HoldsDead_example :
    let p =
      admit talking.crypto
        (λ text. Moment.aware (days 10))
        3
        "t"
        (days 10)
        (some (row, bob))
        (record apart_world { dead = 3 ∷ [] }) in
    (p.0 ≡ err runtime_error) × HoldsDead "t" "b" 3 p.1
unfolding get_state find is_dead lookup
admit-HoldsDead_example =
    admit-HoldsDead talking.crypto (λ text. Moment.aware (days 10)) row bob 3 (days 10) apart_state
      (record apart_world { dead = 3 ∷ [] }) refl refl refl
