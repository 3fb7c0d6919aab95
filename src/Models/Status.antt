-- ===== src/Models/Status.antt =====
-- The status columns of src/babeltower/models.py: the values that the program reads and writes.
use babeltower.Prelude.{ℕ, ◌≡◌, ◌↔◌, arith, HasEq, Bool, nat_beq}

pub data AgentStatus : Type 0 where
  active soft_banned hard_banned deleted : AgentStatus

abbrev pub agent_status_code : AgentStatus → ℕ
agent_status_code AgentStatus.active = 0
agent_status_code AgentStatus.soft_banned = 1
agent_status_code AgentStatus.hard_banned = 2
agent_status_code AgentStatus.deleted = 3

abbrev pub agent_status_beq : AgentStatus → AgentStatus → Bool
agent_status_beq a b = nat_beq (agent_status_code a) (agent_status_code b)

pub agent_status_beq_iff : (a b : AgentStatus) → (agent_status_beq a b ≡ Bool.true) ↔ (a ≡ b)
agent_status_beq_iff a b = ground arith

instance abbrev pub agent_status_eq : HasEq AgentStatus
agent_status_eq = record { equals = agent_status_beq; equals_iff = agent_status_beq_iff }

pub data IntentStatus : Type 0 where
  active dormant expired matched deleted : IntentStatus

abbrev pub intent_status_code : IntentStatus → ℕ
intent_status_code IntentStatus.active = 0
intent_status_code IntentStatus.dormant = 1
intent_status_code IntentStatus.expired = 2
intent_status_code IntentStatus.matched = 3
intent_status_code IntentStatus.deleted = 4

abbrev pub intent_status_beq : IntentStatus → IntentStatus → Bool
intent_status_beq a b = nat_beq (intent_status_code a) (intent_status_code b)

pub intent_status_beq_iff : (a b : IntentStatus) → (intent_status_beq a b ≡ Bool.true) ↔ (a ≡ b)
intent_status_beq_iff a b = ground arith

instance abbrev pub intent_status_eq : HasEq IntentStatus
intent_status_eq = record { equals = intent_status_beq; equals_iff = intent_status_beq_iff }

pub data RequestStatus : Type 0 where
  pending accepted rejected cancelled expired : RequestStatus

abbrev pub request_status_code : RequestStatus → ℕ
request_status_code RequestStatus.pending = 0
request_status_code RequestStatus.accepted = 1
request_status_code RequestStatus.rejected = 2
request_status_code RequestStatus.cancelled = 3
request_status_code RequestStatus.expired = 4

abbrev pub request_status_beq : RequestStatus → RequestStatus → Bool
request_status_beq a b = nat_beq (request_status_code a) (request_status_code b)

pub request_status_beq_iff : (a b : RequestStatus) → (request_status_beq a b ≡ Bool.true) ↔ (a ≡ b)
request_status_beq_iff a b = ground arith

instance abbrev pub request_status_eq : HasEq RequestStatus
request_status_eq = record { equals = request_status_beq; equals_iff = request_status_beq_iff }

pub data SessionStatus : Type 0 where
  awaiting_join active match_proposed match_confirmed closed : SessionStatus

abbrev pub session_status_code : SessionStatus → ℕ
session_status_code SessionStatus.awaiting_join = 0
session_status_code SessionStatus.active = 1
session_status_code SessionStatus.match_proposed = 2
session_status_code SessionStatus.match_confirmed = 3
session_status_code SessionStatus.closed = 4

abbrev pub session_status_beq : SessionStatus → SessionStatus → Bool
session_status_beq a b = nat_beq (session_status_code a) (session_status_code b)

pub session_status_beq_iff : (a b : SessionStatus) → (session_status_beq a b ≡ Bool.true) ↔ (a ≡ b)
session_status_beq_iff a b = ground arith

instance abbrev pub session_status_eq : HasEq SessionStatus
session_status_eq = record { equals = session_status_beq; equals_iff = session_status_beq_iff }
