-- ===== src/Schemas.antt =====
-- Bodies and answers of src/babeltower/schemas.py: the limits that a body must keep before a handler
-- sees it, and the records of the answers. Pydantic refuses a body that does not pass (422).
pub mod Lengths
use babeltower.Prelude.{ℕ, String, Option, none, some, Bool, true, ◌&&◌, List, leb}
use babeltower.Models.{IntentStatus, AgentStatus}
use babeltower.World.{Value}
use babeltower.Intents.{IntentCreateRequest, is_valid_match_type, char_count}
use babeltower.Connections.{ConnectionCreateRequest}

-- `Field(max_length=n)`
abbrev pub max_length : ℕ → String → Bool
max_length n s = leb (char_count s) n

-- ... of a field that may be absent
abbrev pub max_length_or_none : ℕ → Option String → Bool
max_length_or_none n none = true
max_length_or_none n (some s) = max_length n s

-- `Field(ge=low, le=high)`
abbrev pub between : ℕ → ℕ → ℕ → Bool
between low high n = leb low n && leb n high

unfoldable pub accepts_intent : IntentCreateRequest → Bool
unfolding char_count
accepts_intent body =
    max_length 64 body.match_type
    && (max_length 2000 body.seeking
        && (max_length 2000 body.offering
            && (max_length 500 body.constraints && between 1 90 body.ttl_days)))

-- `filters` is a dict with any JSON values.
pub record SearchQueryIntent : Type 0 where
  pub match_type : Option String
  pub seeking : String
  pub offering : String
  pub constraints : String
  pub filters : List (String × Value)

pub record SearchRequest : Type 0 where
  pub query_intent : SearchQueryIntent
  pub max_results : ℕ

-- `pattern=r"^[a-z0-9-]{1,64}$"`
abbrev pub pattern_or_none : Option String → Bool
pattern_or_none none = true
pattern_or_none (some s) = is_valid_match_type s

unfoldable pub accepts_search : SearchRequest → Bool
unfolding char_count
accepts_search body =
    max_length_or_none 64 body.query_intent.match_type
    && (pattern_or_none body.query_intent.match_type
        && (max_length 2000 body.query_intent.seeking
            && (max_length 2000 body.query_intent.offering
                && (max_length 500 body.query_intent.constraints
                    && between 1 20 body.max_results))))

unfoldable pub accepts_connection : ConnectionCreateRequest → Bool
unfolding char_count
accepts_connection body = max_length_or_none 500 body.opening_message

-- RejectConnectionRequest and BlockRequest
unfoldable pub accepts_reason : Option String → Bool
unfolding char_count
accepts_reason reason = max_length_or_none 200 reason

pub record IntentResponse : Type 0 where
  pub intent_id : String
  pub agent_pubkey : String
  pub match_type : String
  pub seeking : String
  pub offering : String
  pub constraints : String
  pub filters : String
  pub ttl_days : ℕ
  pub created_at : ℕ
  pub expires_at : ℕ
  pub status : IntentStatus

pub record SearchCandidate : Type 0 where
  pub intent_id : String
  pub agent_pubkey : String
  pub match_type : String
  pub seeking : String
  pub offering : String
  pub constraints : String
  pub filters : String
  pub similarity : ℕ
  pub agent_status : AgentStatus

pub record InboxPendingRequest : Type 0 where
  pub request_id : String
  pub from_agent_pubkey : String
  pub from_intent : IntentResponse
  pub target_intent_id : String
  pub opening_message : Option String
  pub received_at : ℕ
  pub expires_at : ℕ

pub record InboxSession : Type 0 where
  pub session_id : String
  pub counterparty_pubkey : String
  pub accepted_at : ℕ
  pub session_expires_at : ℕ
  pub my_intent_id : String
  pub counterparty_intent_id : String

pub record InboxMatchProposal : Type 0 where
  pub session_id : String
  pub proposed_by : String
  pub proposed_at : ℕ

pub record InboxMatchedHandoff : Type 0 where
  pub session_id : String
  pub counterparty_pubkey : String
  pub matched_at : ℕ

pub record InboxRejectedRequest : Type 0 where
  pub request_id : String
  pub rejected_at : ℕ
  pub reason : Option String

pub record InboxResponse : Type 0 where
  pub pending_requests : List InboxPendingRequest
  pub accepted_sessions_awaiting_join : List InboxSession
  pub match_proposals : List InboxMatchProposal
  pub matched_handoffs : List InboxMatchedHandoff
  pub recently_rejected : List InboxRejectedRequest

pub record OwnedIntentsResponse : Type 0 where
  pub intents : List IntentResponse

pub record BlockResponse : Type 0 where
  pub target_agent_pubkey : String
  pub reason : Option String
  pub created_at : ℕ

pub record BlocksResponse : Type 0 where
  pub blocks : List BlockResponse
