-- ===== src/Examples/Theorems.antt =====
-- The theorems at concrete inputs.
use babeltower.Prelude.{
  String, ◌≢◌, ◌⊎◌, [], ◌∷◌, ◌≡◌, refl, some, false, arith, find, select, count, ◌==◌, string_eq,
}
use babeltower.Models.{days, Session, SessionStatus, ConnectionRequest}
use babeltower.Exec.{ok, run, reply, scalar_one_or_none}
use babeltower.Clock.{Moment, parse_timestamp, is_stale, replace_zulu}
use babeltower.Crypto.{verify, canonical_request_string}
use babeltower.Lifecycle.{IsGood, Leads, is_accepted}
use babeltower.Lifecycle.Calls.{serve}
use babeltower.Lifecycle.Calls.History.{serve-IsGood, serve-Leads, closed_stays}
use babeltower.Examples.{
  small_db, small_world, services, history, closed_session, alice, open_state, connect_body,
  intent_body, plain_lib, voyage, signed_request,
}
use babeltower.Auth.{
  verify_signed_request, validate_timestamp, require_registered, get_agent_by_pubkey,
}
use babeltower.Auth.Accepted.{IsAuthentic, verify_signed_request-IsAuthentic}
use babeltower.Connections.{create_connection, count_pending_outbound}
use babeltower.Connections.Limit.{IsWithinLimit, create_connection-IsWithinLimit}
use babeltower.Connections.Requested.{Requests, create_connection-IsPermitted}
use babeltower.Intents.{create_intent, count_active_intents}
use babeltower.Intents.Limit.{IsLimited, create_intent-IsLimited}
use babeltower.Jobs.{maintain}
use babeltower.Jobs.Deadlines.{IsMaintained, maintain-IsMaintained}
use babeltower.Agents.{delete_account_db}
use babeltower.Agents.Erasure.{IsErased, tombstone, delete_account_db-IsErased}
use babeltower.Relay.Sockets.{get_state}
use babeltower.Relay.Persist.{find_session}
use babeltower.Relay.End.{Caller, end_session, monitor_limits}
use babeltower.Relay.Messages.{Parsed, handle_frame}
use babeltower.Relay.Bounds.{IsBounded, handle_frame-IsBounded}
use babeltower.World.{Value}
use babeltower.Relay.Ended.{IsStranded, end_session_once, monitor_limits-IsStranded}

small_db-IsGood : IsGood small_db
unfolding is_accepted find
small_db-IsGood = record { shaped = ((refl, refl), tt); linked = (refl, tt); distinct = (tt, tt) }

serve-IsGood_example : IsGood (serve services history small_world).store
serve-IsGood_example = serve-IsGood services history small_world small_db-IsGood

serve-Leads_example : Leads small_db (serve services history small_world).store
serve-Leads_example = serve-Leads services history small_world small_db-IsGood

closed_stays_example :
    (t : Session) × (find_session "s" (serve services history small_world).store ≡ some t)
    × (t.status ≡ SessionStatus.closed)
    × (t.agent_a_id ≡ "a")
    × (t.agent_b_id ≡ "b")
    × (t.connection_request_id ≡ "r")
unfolding find
closed_stays_example =
    closed_stays services history small_world "s" closed_session small_db-IsGood refl refl

maintain-IsMaintained_example : IsMaintained (days 40) (maintain (days 40) small_db)
maintain-IsMaintained_example = maintain-IsMaintained (days 40) small_db

create_connection-IsPermitted_example :
    let left = run (create_connection "q" "e" alice connect_body (days 10)) small_world in
    ((left.1.store ≡ small_world.store) × ((r : ConnectionRequest) → left.0 ≢ ok (reply r)))
    ⊎ Requests "q" "e" alice connect_body (days 10) small_world left
create_connection-IsPermitted_example =
    create_connection-IsPermitted "q" "e" alice connect_body (days 10) small_world

verify_signed_request-IsAuthentic_example :
    IsAuthentic plain_lib
      (λ text. Moment.aware (days 10))
      signed_request
      (days 10)
      small_world
      alice
unfolding verify_signed_request validate_timestamp parse_timestamp is_stale require_registered
    get_agent_by_pubkey verify canonical_request_string select scalar_one_or_none replace_zulu
verify_signed_request-IsAuthentic_example =
    verify_signed_request-IsAuthentic plain_lib (λ text. Moment.aware (days 10)) signed_request
      (days 10) small_world alice refl

small_db-IsLimited : IsLimited small_db
unfolding count_active_intents count
small_db-IsLimited id = ground arith

create_intent-IsLimited_example :
    IsLimited
      (run
        (create_intent services.regex plain_lib voyage "k" "e" alice intent_body (days 10))
        small_world).1.store
create_intent-IsLimited_example =
    create_intent-IsLimited services.regex plain_lib voyage "k" "e" alice intent_body (days 10)
      small_world small_db-IsLimited

end_session_once_example :
    end_session Caller.monitor "t" "inactivity"
      (days 11)
      (end_session Caller.handler "t" "ended_by_agent" (days 10) small_world).1
    ≡ (ok tt, (end_session Caller.handler "t" "ended_by_agent" (days 10) small_world).1)
unfolding get_state find
end_session_once_example =
    end_session_once Caller.handler Caller.monitor "t" "ended_by_agent" "inactivity" (days 10)
      (days 11) small_world open_state refl

monitor_limits-IsStranded_example :
    ((monitor_limits "t" (days 11) small_world).0 ≡ ok false)
    × IsStranded "t" small_world (monitor_limits "t" (days 11) small_world).1
unfolding get_state find
monitor_limits-IsStranded_example =
    monitor_limits-IsStranded "t" (days 11) (days 10) open_state small_world refl refl refl refl
      refl (ground arith)

delete_account_db-IsErased_example :
    IsErased "a" (delete_account_db "a" (days 10) small_db)
    × (find (λ b. b.id == "a") (delete_account_db "a" (days 10) small_db).agents
        ≡ some (tombstone alice))
unfolding find
delete_account_db-IsErased_example = delete_account_db-IsErased "a" (days 10) small_db alice refl

-- The parser that reads every frame as a message of the session.
abbrev one_message : String → Parsed
one_message raw = Parsed.object (
    ("type", Value.text "message")
    ∷ ("session_id", Value.text "t")
    ∷ ("body", Value.text "hello")
    ∷ [])

handle_frame-IsBounded_example :
    IsBounded (handle_frame one_message open_state "a" 1 "hello" (days 10) small_world).1
unfolding get_state find
handle_frame-IsBounded_example =
    handle_frame-IsBounded open_state "a" 1 (days 10) one_message "hello" small_world refl
      (ground arith, tt)

small_db-IsWithinLimit : IsWithinLimit (days 10) small_db
unfolding count_pending_outbound count
small_db-IsWithinLimit id = ground arith

create_connection-IsWithinLimit_example :
    IsWithinLimit
      (days 10)
      (run (create_connection "q" "e" alice connect_body (days 10)) small_world).1.store
create_connection-IsWithinLimit_example =
    create_connection-IsWithinLimit (days 10) "q" "e" alice connect_body small_world
      small_db-IsWithinLimit
