-- ===== src/Lifecycle.antt =====
-- The life of a session row and of a connection request over all the calls of the server: the states
-- of PROTOCOL.md §7 and §6.4, as src/babeltower/routes, src/babeltower/jobs.py and
-- src/babeltower/relay.py move them.
pub mod Rows
pub mod Steps
pub mod Sound
pub mod Requests
pub mod Proposing
pub mod Matching
pub mod Bans
pub mod Connecting
pub mod Blocking
pub mod Others
pub mod Silent
pub mod Ending
pub mod Relaying
pub mod Posting
pub mod Registering
pub mod Polling
pub mod Calls
use babeltower.Prelude.{
  ℕ, String, ◌≡◌, refl, ◌≢◌, ◌⊎◌, inl, inr, Option, none, some, Bool, true, false, ◌||◌, ◌&&◌, List,
  [], ◌∷◌, map, arith, All, ◌==◌, string_eq, find, if◌then◌else◌,
}
use babeltower.Prelude.Evolves.{Evolves}
use babeltower.Models.{
  Db, Session, ConnectionRequest, SessionStatus, RequestStatus, request_status_eq,
}

abbrev pub is_there {ℓ} : {A : Type ℓ} → Option A → Bool
is_there none = false
is_there (some a) = true

-- One step of a session's status.
pub data Move : SessionStatus → SessionStatus → Type 0 where
  joins : Move SessionStatus.awaiting_join SessionStatus.active
  proposes : Move SessionStatus.active SessionStatus.match_proposed
  rejects : Move SessionStatus.match_proposed SessionStatus.active
  confirms : Move SessionStatus.match_proposed SessionStatus.match_confirmed
  closes : (s : SessionStatus) → Move s SessionStatus.closed

-- Any number of steps.
pub data Reach (s : SessionStatus) : SessionStatus → Type 0 where
  here : Reach s s
  next : {t u : SessionStatus} → Reach s t → Move t u → Reach s u

pub Reach-trans : {s t u : SessionStatus} → Reach s t → Reach t u → Reach s u
Reach-trans r here = r
Reach-trans r (next q m) = next (Reach-trans r q) m

-- A row keeps its id, its members and its request, and its status takes steps.
pub record SessionFollows (s t : Session) : Type 0 where
  pub id : t.id ≡ s.id
  pub agent_a : t.agent_a_id ≡ s.agent_a_id
  pub agent_b : t.agent_b_id ≡ s.agent_b_id
  pub request : t.connection_request_id ≡ s.connection_request_id
  pub status : Reach s.status t.status

abbrev pub IsNewSession : Session → Type 0
IsNewSession s = Reach SessionStatus.awaiting_join s.status

-- A row stays as it is, or it was pending, is answered for good, and keeps who asked whom for what.
pub record Answers (r q : ConnectionRequest) : Type 0 where
  pub was_pending : r.status ≡ RequestStatus.pending
  pub not_pending : q.status ≢ RequestStatus.pending
  pub responded : is_there q.responded_at ≡ true
  pub id : q.id ≡ r.id
  pub from_agent : q.from_agent_id ≡ r.from_agent_id
  pub to_agent : q.to_agent_id ≡ r.to_agent_id
  pub target_intent : q.target_intent_id ≡ r.target_intent_id
  pub from_intent : q.from_intent_id ≡ r.from_intent_id
  pub created_at : q.created_at ≡ r.created_at
  pub expires_at : q.expires_at ≡ r.expires_at

abbrev pub RequestFollows : ConnectionRequest → ConnectionRequest → Type 0
RequestFollows r q = (q ≡ r) ⊎ Answers r q

abbrev pub IsNewRequest : ConnectionRequest → Type 0
IsNewRequest r = (r.status ≡ RequestStatus.pending) ⊎ (is_there r.responded_at ≡ true)

-- What the columns of a session hold in each status.
abbrev proposed_by_member : Session → Option String → Bool
proposed_by_member s none = false
proposed_by_member s (some p) = p == s.agent_a_id || p == s.agent_b_id

abbrev pub Shape : SessionStatus → Session → Type 0
Shape SessionStatus.awaiting_join s =
    (s.active_at ≡ none) × (s.match_proposed_by_id ≡ none) × (s.closed_at ≡ none)
Shape SessionStatus.active s =
    (is_there s.active_at ≡ true) × (s.match_proposed_by_id ≡ none) × (s.closed_at ≡ none)
Shape SessionStatus.match_proposed s =
    (is_there s.active_at ≡ true)
    × (proposed_by_member s s.match_proposed_by_id ≡ true)
    × (is_there s.match_proposed_at ≡ true)
    × (s.closed_at ≡ none)
Shape SessionStatus.match_confirmed s =
    (is_there s.active_at ≡ true)
    × (proposed_by_member s s.match_proposed_by_id ≡ true)
    × (is_there s.match_confirmed_at ≡ true)
    × (s.closed_at ≡ none)
Shape SessionStatus.closed s = (is_there s.closed_at ≡ true) × (is_there s.close_reason ≡ true)

abbrev pub IsShaped : Session → Type 0
IsShaped s = Shape s.status s

-- Is the request with this id accepted?
unfoldable pub is_accepted : List ConnectionRequest → String → Bool
unfolding find
is_accepted requests id = elim (find (λ r. r.id == id) requests) [
  | none ↦ false
  | some r ↦ r.status == RequestStatus.accepted
]

abbrev pub IsLinked : List ConnectionRequest → Session → Type 0
IsLinked requests s = is_accepted requests s.connection_request_id ≡ true

-- No two sessions are of one request: `unique=True` of `Session.connection_request_id`.
abbrev pub AreDistinct : List String → Type 0
AreDistinct [] = Unit
AreDistinct (i ∷ is) = All (λ j. j ≢ i) is × AreDistinct is

abbrev pub request_ids : List Session → List String
request_ids = map λ s. s.connection_request_id

pub record IsGood (db : Db) : Type 0 where
  pub shaped : All IsShaped db.sessions
  pub linked : All (IsLinked db.connection_requests) db.sessions
  pub distinct : AreDistinct (request_ids db.sessions)

pub record Leads (before after : Db) : Type 0 where
  pub sessions : Evolves SessionFollows IsNewSession before.sessions after.sessions
  pub requests :
      Evolves RequestFollows IsNewRequest before.connection_requests after.connection_requests
