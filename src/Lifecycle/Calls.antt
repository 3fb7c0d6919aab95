-- ===== src/Lifecycle/Calls.antt =====
-- Histories of calls. A call is one request to a route with its caller authenticated, one run of the
-- maintenance job, or one step of the relay: a websocket that a member joins, a frame, a
-- disconnection, a deadline. Calls run one after the other, each to its end.
pub mod History
pub mod Delivery
use babeltower.Prelude.{ℕ, String, Option, none, some, List, [], ◌∷◌}
use babeltower.Models.{Agent, Session}
use babeltower.World.{World, SessionState, Value}
use babeltower.Exec.{Exec, Result, ok, err, websocket_disconnect, begin}
use babeltower.Moderation.{Regex}
use babeltower.Connections.{ConnectionCreateRequest, create_connection}
use babeltower.Connections.Respond.{accept_connection, reject_connection, cancel_connection}
use babeltower.Sessions.{end_session}
use babeltower.Matches.{propose_match, accept_match, reject_match}
use babeltower.Blocks.{block_agent, unblock_agent}
use babeltower.Agents.{delete_agent}
use babeltower.Intents.{IntentCreateRequest, create_intent}
use babeltower.Intents.Owned.{delete_intent, refresh_intent}
use babeltower.Jobs.{run_maintenance}
use babeltower.Crypto.{CryptoLib}
use babeltower.GithubOauth.{HttpClient, Settings}
use babeltower.Register.Routes.{init_registration, oauth_callback}
use babeltower.Schemas.{SearchRequest}
use babeltower.Inbox.{get_inbox}
use babeltower.Search.{search}
use babeltower.Relay.Sockets.{get_state}
use babeltower.Relay.Messages.{Parsed, handle_frame}
use babeltower.Relay.Join.{join, disconnect}
use babeltower.Relay.End.{Caller}
use babeltower.Relay.End

-- The libraries and services that the calls use.
pub record Services : Type 0 where
  pub regex : Regex
  pub json_loads : String → Parsed
  pub crypto : CryptoLib
  pub http_client : HttpClient
  pub settings : Settings
  pub voyage : String → String → ℕ → Result (List String)
  pub str : Value → String
  pub field_text : String → String → Option String
  pub distance : String → String → ℕ

-- The arguments are those of the handlers: ids that the call makes, the caller, the body, the time.
pub data Call : Type 0 where
  connects : String → String → Agent → ConnectionCreateRequest → ℕ → Call
  accepts : String → String → Agent → ℕ → Call
  rejects : String → Agent → Option String → ℕ → Call
  cancels : String → Agent → ℕ → Call
  ends : String → Agent → ℕ → Call
  proposes : String → Agent → ℕ → Call
  accepts_match : String → Agent → ℕ → Call
  rejects_match : String → Agent → Option String → Call
  blocks : String → String → Agent → String → Option String → ℕ → Call
  unblocks : Agent → String → Call
  deletes_account : Agent → ℕ → Call
  posts : String → String → Agent → IntentCreateRequest → ℕ → Call
  deletes_intent : String → Agent → Call
  refreshes : String → Agent → ℕ → Call
  maintains : ℕ → Call
  registers : String → String → String → String → ℕ → Call
  calls_back : String → String → String → ℕ → Call
  polls : Agent → ℕ → Call
  searches : Agent → SearchRequest → ℕ → Call
  joins_session : ℕ → Session → String → ℕ → Call
  sends : String → String → ℕ → String → ℕ → Call
  leaves : String → String → ℕ → Call
  deadline : Caller → String → String → ℕ → Call

-- `except WebSocketDisconnect` of `handle_websocket`
unfoldable pub on_disconnect :
    String → String → ℕ → Result (Unit {0}) × World → Result (Unit {0}) × World
on_disconnect session_id agent_id socket (err websocket_disconnect, w) =
    disconnect session_id agent_id socket w
on_disconnect session_id agent_id socket (r, w) = (r, w)

-- One round of the loop of `handle_websocket`, where the relay holds the session.
unfoldable pub frame_for :
    (String → Parsed) → Option SessionState → String → ℕ → String → ℕ → Exec (Unit {0})
frame_for json_loads none agent_id socket raw now w = (ok tt, w)
frame_for json_loads (some s) agent_id socket raw now w =
    on_disconnect s.session_id agent_id socket (handle_frame json_loads s agent_id socket raw now w)

-- The world that a call leaves: its own transaction ends with it.
abbrev pub left : {A : Type 0} → Result A × World → World
left p = begin p.1

module _ (services : Services) where
  open services use {
    regex, json_loads, crypto, http_client, settings, voyage, str, field_text, distance,
  }

  unfoldable pub perform_in : Call → World → World
  perform_in (connects id event_id agent body now) w =
      left (create_connection id event_id agent body now w)
  perform_in (accepts new_id id agent now) w = left (accept_connection new_id id agent now w)
  perform_in (rejects id agent reason now) w = left (reject_connection id agent reason now w)
  perform_in (cancels id agent now) w = left (cancel_connection id agent now w)
  perform_in (ends id agent now) w = left (end_session id agent now w)
  perform_in (proposes id agent now) w = left (propose_match id agent now w)
  perform_in (accepts_match id agent now) w = left (accept_match id agent now w)
  perform_in (rejects_match id agent reason) w = left (reject_match id agent reason w)
  perform_in (blocks id event_id agent pubkey reason now) w =
      left (block_agent id event_id agent pubkey reason now w)
  perform_in (unblocks agent pubkey) w = left (unblock_agent agent pubkey w)
  perform_in (deletes_account agent now) w = left (delete_agent agent now w)
  perform_in (posts id event_id agent body now) w =
      left (create_intent regex crypto voyage id event_id agent body now w)
  perform_in (deletes_intent id agent) w = left (delete_intent id agent w)
  perform_in (refreshes id agent now) w = left (refresh_intent id agent now w)
  perform_in (maintains now) w = left (run_maintenance now w)
  perform_in (registers token pubkey nonce signature now) w =
      left (init_registration crypto http_client settings token pubkey nonce signature now w)
  perform_in (calls_back id code state now) w =
      left (oauth_callback http_client settings id code state now w)
  perform_in (polls agent now) w = left (get_inbox agent now w)
  perform_in (searches agent body now) w =
      left (search str field_text distance crypto voyage agent body now w)
  perform_in (joins_session socket row agent_id now) w = left (join socket row agent_id now w)
  perform_in (sends id agent_id socket raw now) w =
      left (frame_for json_loads (get_state id w) agent_id socket raw now w)
  perform_in (leaves id agent_id socket) w = left (disconnect id agent_id socket w)
  perform_in (deadline caller id reason now) w = left (End.end_session caller id reason now w)

  unfoldable pub perform : Call → World → World
  perform c w = perform_in c (begin w)

  unfoldable pub serve : List Call → World → World
  serve [] w = w
  serve (c ∷ cs) w = serve cs (perform c w)
