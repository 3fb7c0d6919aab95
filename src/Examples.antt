-- ===== src/Examples.antt =====
-- A small server for the examples: two agents with an active intent each, an accepted request between
-- them with its session, over, and a relay that holds one open session.
pub mod Theorems
pub mod Clients
pub mod Deliveries
pub mod Handlers
pub mod Accounts
use babeltower.Prelude.{
  ℕ, zero, suc, if◌then◌else◌, ◌==◌, nat_eq, String, none, some, true, false, List, [], ◌∷◌, Option,
  Bool,
}
use babeltower.Models.{
  Db, Agent, Intent, ConnectionRequest, Session, AgentStatus, IntentStatus, RequestStatus,
  SessionStatus, days, hours, minutes,
}
use babeltower.World.{World, SessionState, Value}
use babeltower.Exec.{Result, ok, err, runtime_error, value_error}
use babeltower.GithubOauth.{HttpClient, Settings}
use babeltower.Moderation.{Regex}
use babeltower.Relay.Messages.{Parsed}
use babeltower.Lifecycle.Calls.{Services, Call}
use babeltower.Connections.{ConnectionCreateRequest}
use babeltower.Intents.{IntentCreateRequest}
use babeltower.Crypto.{CryptoLib}
use babeltower.Auth.{Request}

abbrev an_agent : String → String → Agent
an_agent id pubkey = record {
  id = id;
  pubkey = pubkey;
  github_user_id = some 7;
  created_at = 0;
  last_seen_at = some (days 9);
  status = AgentStatus.active;
  soft_ban_lifts_at = none;
  intents_created_total = 1;
  connection_requests_sent_total = 1;
  connection_requests_received_total = 1;
  connection_requests_accepted_total = 1;
  sessions_started_total = 1;
  matches_confirmed_total = 0;
  blocks_received_total = 0;
}

abbrev pub alice : Agent
alice = an_agent "a" "key-a"

abbrev pub bob : Agent
bob = an_agent "b" "key-b"

abbrev pub an_intent : String → String → Intent
an_intent id agent_id = record {
  id = id;
  agent_id = agent_id;
  match_type = "cofounder";
  seeking = "a cofounder";
  offering = "a company";
  constraints = "";
  filters = "";
  embedding = "";
  ttl_days = 30;
  created_at = days 8;
  expires_at = days 38;
  status = IntentStatus.active;
}

abbrev accepted_request : ConnectionRequest
accepted_request = record {
  id = "r";
  from_agent_id = "a";
  to_agent_id = "b";
  target_intent_id = "j";
  from_intent_id = "i";
  opening_message = none;
  status = RequestStatus.accepted;
  created_at = days 5;
  expires_at = days 8;
  responded_at = some (days 6);
  rejection_reason = none;
}

abbrev pub closed_session : Session
closed_session = record {
  id = "s";
  agent_a_id = "a";
  agent_b_id = "b";
  connection_request_id = "r";
  status = SessionStatus.closed;
  created_at = days 6;
  expires_at = days 9;
  closed_at = some (days 7);
  close_reason = some "ended_by_agent";
  message_count = 3;
  active_at = some (days 6);
  match_proposed_by_id = none;
  match_proposed_at = none;
  match_confirmed_at = none;
}

abbrev pub small_db : Db
small_db = record {
  agents = alice ∷ bob ∷ [];
  intents = an_intent "i" "a" ∷ an_intent "j" "b" ∷ [];
  connection_requests = accepted_request ∷ [];
  sessions = closed_session ∷ [];
  blocks = [];
  abuse_events = [];
}

abbrev pub open_state : SessionState
open_state = record {
  session_id = "t";
  member_ids = "a" ∷ "b" ∷ [];
  pubkeys_by_agent_id = ("a", "key-a") ∷ ("b", "key-b") ∷ [];
  sockets = ("a", 1) ∷ ("b", 2) ∷ [];
  buffers = [];
  message_count = 4;
  active_at = some (days 10);
  last_message_at = days 10;
  monitor_task = true;
  handoff_task = false;
  closed = false;
  active_metric_counted = true;
}

abbrev pub small_world : World
small_world = record {
  store = small_db;
  work = small_db;
  metrics = record {
    intents_created_total = 2;
    searches_total = 0;
    active_sessions = 1;
    messages_relayed_total = 4;
    matches_confirmed_total = 0;
    soft_bans_applied_total = 0;
  };
  states = open_state ∷ [];
  handoff_tasks = [];
  sent = [];
  hung_up = [];
  dead = [];
  disconnects = [];
  redis = some [];
  db_suspends = true;
}

-- A signature that is the message, under any key.
abbrev pub plain_lib : CryptoLib
plain_lib = record {
  b64decode = λ text. some [];
  encode = λ text. [];
  check = λ key signature message. true;
  sha256_hex = λ body. body;
  upper = λ method. method;
}

-- GitHub gives every code a token and every token the user 9.
abbrev pub github : HttpClient
github = record {
  post = λ url headers form.
      ok (record { is_success = true; json = ok (("access_token", Value.text "token") ∷ []) });
  get = λ url headers. ok (record { is_success = true; json = ok (("id", Value.number 9) ∷ []) });
  urlencode = λ fields. "";
  int_of = λ value. err value_error;
}

abbrev pub server_settings : Settings
server_settings = record {
  github_oauth_client_id = "client";
  github_oauth_client_secret = "secret";
  server_base_url = "https://babeltower.example";
}

abbrev pub zeros : ℕ → List String
zeros zero = []
zeros (suc n) = "0" ∷ zeros n

-- A service that answers at the second attempt.
abbrev pub voyage : String → String → ℕ → Result (List String)
voyage text input_type n = if n == 0 then err runtime_error else ok (zeros 1024)

-- Filters that find nothing, frames that are no JSON.
abbrev pub services : Services
services = record {
  regex = record { search_pattern = λ p text. false; sub_space = λ p text. text };
  json_loads = λ raw. Parsed.bad_json;
  crypto = plain_lib;
  http_client = github;
  settings = server_settings;
  voyage = voyage;
  str = λ v. "";
  field_text = λ filters key. none;
  distance = λ embedding literal. 0;
}

abbrev pub connect_body : ConnectionCreateRequest
connect_body = record { target_intent_id = "j"; from_intent_id = "i"; opening_message = none }

abbrev pub intent_body : IntentCreateRequest
intent_body = record {
  match_type = "cofounder";
  seeking = "a cofounder";
  offering = "a company";
  constraints = "";
  filters = "";
  ttl_days = 30;
}

-- Alice asks Bob, who accepts; they join and match; Carol registers; Bob polls; the job runs.
abbrev pub history : List Call
history =
    Call.connects "q" "e1" alice connect_body (days 10)
    ∷ Call.accepts "u" "q" bob (days 10)
    ∷ Call.proposes "u" alice (days 10)
    ∷ Call.accepts_match "u" bob (days 10)
    ∷ Call.ends "s" bob (days 10)
    ∷ Call.posts "k" "e2" alice intent_body (days 10)
    ∷ Call.registers "token" "key-c" "nonce" "signature" (days 10)
    ∷ Call.calls_back "c" "code" "token" (days 10)
    ∷ Call.polls bob (days 10)
    ∷ Call.maintains (days 11)
    ∷ []

abbrev pub signed_request : Request
signed_request = record {
  method = "POST";
  path = "/v1/connect";
  query_string = "";
  x_agent_pubkey = some "key-a";
  x_timestamp = some "2025-01-01T00:00:00Z";
  x_signature = some "signature";
  body = "";
}
