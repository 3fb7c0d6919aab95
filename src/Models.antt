-- ===== src/Models.antt =====
-- src/babeltower/models.py: the tables and their rows.
-- An id, a public key and any other text is a `String`; a time is the number of microseconds since
-- the smallest `datetime`, in UTC; a nullable column is an `Option`. The columns `filters`
-- (JSON) and `embedding` (a vector) of an intent are opaque texts: the program only carries them
-- along. The `details` of an abuse event are its reason and the counts that go with it.
pub mod Status
use babeltower.Prelude.{ℕ, ◌*◌, String, Option, List, []}
use Status.{AgentStatus, IntentStatus, RequestStatus, SessionStatus}
pub use Status.{
  AgentStatus, IntentStatus, RequestStatus, SessionStatus, agent_status_eq, intent_status_eq,
  request_status_eq, session_status_eq,
}

-- timedelta(seconds=1) and its multiples, in microseconds
abbrev pub seconds : ℕ → ℕ
seconds n = n * 1_000_000

abbrev pub minutes : ℕ → ℕ
minutes n = n * 60_000_000

abbrev pub hours : ℕ → ℕ
hours n = n * 3_600_000_000

abbrev pub days : ℕ → ℕ
days n = n * 86_400_000_000

pub record Agent : Type 0 where
  pub id : String
  pub pubkey : String
  pub github_user_id : Option ℕ
  pub created_at : ℕ
  pub last_seen_at : Option ℕ
  pub status : AgentStatus
  pub soft_ban_lifts_at : Option ℕ
  pub intents_created_total : ℕ
  pub connection_requests_sent_total : ℕ
  pub connection_requests_received_total : ℕ
  pub connection_requests_accepted_total : ℕ
  pub sessions_started_total : ℕ
  pub matches_confirmed_total : ℕ
  pub blocks_received_total : ℕ

pub record Intent : Type 0 where
  pub id : String
  pub agent_id : String
  pub match_type : String
  pub seeking : String
  pub offering : String
  pub constraints : String
  pub filters : String
  pub embedding : String
  pub ttl_days : ℕ
  pub created_at : ℕ
  pub expires_at : ℕ
  pub status : IntentStatus

pub record ConnectionRequest : Type 0 where
  pub id : String
  pub from_agent_id : String
  pub to_agent_id : String
  pub target_intent_id : String
  pub from_intent_id : String
  pub opening_message : Option String
  pub status : RequestStatus
  pub created_at : ℕ
  pub expires_at : ℕ
  pub responded_at : Option ℕ
  pub rejection_reason : Option String

pub record Session : Type 0 where
  pub id : String
  pub agent_a_id : String
  pub agent_b_id : String
  pub connection_request_id : String
  pub status : SessionStatus
  pub created_at : ℕ
  pub expires_at : ℕ
  pub closed_at : Option ℕ
  pub close_reason : Option String
  pub message_count : ℕ
  pub active_at : Option ℕ
  pub match_proposed_by_id : Option String
  pub match_proposed_at : Option ℕ
  pub match_confirmed_at : Option ℕ

pub record Block : Type 0 where
  pub id : String
  pub blocker_id : String
  pub blocked_id : String
  pub reason : Option String
  pub created_at : ℕ

pub record AbuseEvent : Type 0 where
  pub id : String
  pub agent_id : String
  pub event_type : String
  pub details : String × List (String × ℕ)
  pub created_at : ℕ

pub record Db : Type 0 where
  pub agents : List Agent
  pub intents : List Intent
  pub connection_requests : List ConnectionRequest
  pub sessions : List Session
  pub blocks : List Block
  pub abuse_events : List AbuseEvent

abbrev pub empty_db : Db
empty_db = record {
  agents = [];
  intents = [];
  connection_requests = [];
  sessions = [];
  blocks = [];
  abuse_events = [];
}
