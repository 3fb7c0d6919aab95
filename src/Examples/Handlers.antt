-- ===== src/Examples/Handlers.antt =====
-- The theorems on handlers and what is read afterwards at concrete inputs.
use babeltower.Prelude.{
  ◌≡◌, In, some, update_row, arith, ◌≢◌, refl, none, [], ◌∷◌, All, inl, select, find, string_eq,
  count,
}
use text.Mathlib.TextEquality.{eq_iff}
use babeltower.Models.{days, Block, Intent}
use babeltower.World.{World, Json}
use babeltower.Exec.{ok, run, scalar_one_or_none}
use babeltower.Auth.{get_agent_by_pubkey}
use babeltower.Moderation.{
  ban_reason, reason_of, is_spam, count_blocks_received_since, count_connections_sent_since,
  count_connections_sent_accepted_since, count_intents_created_since, check_and_apply_soft_ban,
  check_agent, ban_if,
}
use babeltower.Blocks.{
  block_agent, block_loaded, block_other, upsert_block, store_block, close_sessions_between,
  end_all,
}
use babeltower.Blocks.Kept.{IsKeptApart, block_agent-IsKeptApart}
use babeltower.Blocks.Hidden.{candidate_rows-unblocked}
use babeltower.Schemas.{SearchRequest}
use babeltower.Search.{candidate_rows}
use babeltower.Intents.{new_intent}
use babeltower.Embeddings.{vector_text}
use babeltower.Models.{ConnectionRequest, Session, SessionStatus}
use babeltower.Connections.{
  create_connection, new_request, load_target, load_from_intent, with_intents, connect_intents,
  has_block_between, blocks_between, count_pending_outbound, count_requests_sent_since,
  create_connection_request, add_request,
}
use babeltower.Schemas.{InboxResponse}
use babeltower.Inbox.{get_inbox}
use babeltower.Inbox.Asked.{Tells, create_connection-IsShown}
use babeltower.Inbox.Matched.{handed_off, accept_match-IsShown}
use babeltower.Matches.{accept_match}
use babeltower.Relay.Sockets.{get_state}
use babeltower.Relay.Persist.{persist_closed}
use babeltower.Relay.End.{end_session, end_state}
use babeltower.Sessions
use babeltower.Sessions.Closed.{IsFinal, end_session-IsFinal}
use babeltower.Sessions.{get_member_session, member_session}
use babeltower.Examples.{
  bob, an_intent, connect_body, closed_session, small_world, small_db, services, alice, intent_body,
  zeros,
}

block_agent-IsKeptApart_example :
    IsKeptApart alice "key-b" small_world.store
      (run (block_agent "x" "e" alice "key-b" none (days 10)) small_world).1.store
unfolding block_agent block_loaded block_other upsert_block store_block close_sessions_between
    end_all get_agent_by_pubkey select scalar_one_or_none check_and_apply_soft_ban find count
block_agent-IsKeptApart_example =
    block_agent-IsKeptApart "x" "e" alice "key-b" none (days 10) small_world refl

abbrev search_body : SearchRequest
search_body = record {
  query_intent = record {
    match_type = none;
    seeking = "a company";
    offering = "a cofounder";
    constraints = "";
    filters = [];
  };
  max_results = 5;
}

abbrev a_block : Block
a_block = record {
  id = "x";
  blocker_id = "a";
  blocked_id = "b";
  reason = none;
  created_at = days 9;
}

candidate_rows-unblocked_example :
    All
      (λ row. row.0.agent_id ≢ "b")
      (candidate_rows services.str services.field_text services.distance "a" search_body "[1]"
        (record small_db { blocks = a_block ∷ [] }))
    × All
        (λ row. row.0.agent_id ≢ "a")
        (candidate_rows services.str services.field_text services.distance "b" search_body "[1]"
          (record small_db { blocks = a_block ∷ [] }))
candidate_rows-unblocked_example =
    candidate_rows-unblocked services.str services.field_text services.distance "a" "b" search_body
      "[1]" (record small_db { blocks = a_block ∷ [] }) (a_block, inl refl, refl)

abbrev made : Intent
made = new_intent "k" "a" intent_body (vector_text (Json.numbers (zeros 1024))) (days 10)

abbrev asked : ConnectionRequest
asked = new_request "q" "a" "b" connect_body (days 10)

create_connection-IsShown_example :
    let left = run (create_connection "q" "e" alice connect_body (days 10)) small_world in
    (inbox : InboxResponse) × ((run (get_inbox bob (days 10)) left.1).0 ≡ ok inbox)
    × (Tells alice (an_intent "i" "a") asked inbox.pending_requests)
unfolding create_connection load_target load_from_intent with_intents connect_intents
    has_block_between blocks_between count_pending_outbound count_requests_sent_since
    create_connection_request new_request check_and_apply_soft_ban check_agent ban_if ban_reason
    reason_of is_spam count_blocks_received_since count_connections_sent_since
    count_connections_sent_accepted_since count_intents_created_since add_request find select count
    update_row scalar_one_or_none
create_connection-IsShown_example =
    create_connection-IsShown "q" "e" alice connect_body (days 10) bob asked (days 10) small_world
      refl refl refl refl (omega arith)

-- Alice has proposed a match.
abbrev proposed_row : Session
proposed_row = record closed_session {
  status = SessionStatus.match_proposed;
  match_proposed_by_id = some "a";
  match_proposed_at = some (days 9);
}

abbrev proposed_world : World
proposed_world = record small_world { store = record small_db { sessions = proposed_row ∷ [] } }

accept_match-IsShown_example :
    (inbox : InboxResponse) × ((run
        (get_inbox alice (days 10))
        (run (accept_match "s" bob (days 10)) proposed_world).1).0
      ≡ ok inbox)
    × In (handed_off proposed_row (days 10) "a" alice bob) inbox.matched_handoffs
unfolding member_session find select
accept_match-IsShown_example =
    accept_match-IsShown "s" bob alice proposed_row "a" (days 10) (days 10) proposed_world refl refl
      refl (λ e. ground (arith, (eq_iff "a" "b").1 e)) refl refl refl (omega arith) refl

end_session-IsFinal_example :
    (row : Session) × (member_session "s" "b" proposed_world.store ≡ some row)
    × (IsFinal row.id (run (Sessions.end_session "s" bob (days 10)) proposed_world).1.store)
unfolding Sessions.end_session member_session find get_member_session Sessions.end_loaded
    Sessions.close_session end_session end_state get_state persist_closed
end_session-IsFinal_example = end_session-IsFinal "s" bob (days 10) proposed_world refl
