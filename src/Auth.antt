-- ===== src/Auth.antt =====
-- src/babeltower/auth.py: `verify_signed_request` and `require_agent_can_mutate`, the dependencies of
-- the routes.
pub mod Accepted
use babeltower.Prelude.{
  ℕ, String, ◌<>◌, Option, none, some, Bool, true, false, ◌&&◌, ◌||◌, List, [], ◌∷◌, if◌then◌else◌,
  ◌==◌, string_eq, select, contains,
}
use babeltower.Models.{Db, Agent, AgentStatus, agent_status_eq}
use babeltower.Exec.{
  Exec, Result, ok, err, http, pure, raise, query, ◌>>=◌, ◌>>◌, scalar_one_or_none,
}
use babeltower.Clock.{Moment, parse_timestamp, is_stale}
use babeltower.Crypto.{CryptoLib, verify, canonical_request_string}

-- A header that is absent is none.
pub record Request : Type 0 where
  pub method : String
  pub path : String
  pub query_string : String
  pub x_agent_pubkey : Option String
  pub x_timestamp : Option String
  pub x_signature : Option String
  pub body : String

abbrev pub target : Request → String
target r = r.path <> (if r.query_string == "" then "" else "?" <> r.query_string)

-- `not header`
abbrev pub is_missing : Option String → Bool
is_missing none = true
is_missing (some h) = h == ""

abbrev pub header_or_empty : Option String → String
header_or_empty none = ""
header_or_empty (some h) = h

-- `get_agent_by_pubkey`
unfoldable pub get_agent_by_pubkey : String → Exec (Option Agent)
unfolding select scalar_one_or_none
get_agent_by_pubkey pubkey = do
  found ← query (λ db. select (λ a. a.pubkey == pubkey) db.agents)
  scalar_one_or_none found

module _ (lib : CryptoLib) (from_isoformat : String → Moment) where
  -- `_parse_timestamp` and `_validate_timestamp`
  unfoldable pub validate_timestamp : String → ℕ → Exec (Unit {0})
  unfolding parse_timestamp is_stale
  validate_timestamp value now = elim (parse_timestamp from_isoformat value) [
    | none ↦ raise (http 401 "invalid timestamp")
    | some t ↦
        if is_stale now t then raise (http 401 "timestamp outside allowed window") else pure tt
  ]

  unfoldable pub require_registered : Option Agent → Exec Agent
  require_registered none = raise (http 401 "agent not registered")
  require_registered (some agent) =
      if agent.status == AgentStatus.hard_banned || agent.status == AgentStatus.deleted
      then raise (http 401 "agent not registered")
      else pure agent

  unfoldable pub verify_signed_request : Request → ℕ → Exec Agent
  unfolding validate_timestamp require_registered get_agent_by_pubkey verify
      canonical_request_string
  verify_signed_request r now =
      if is_missing r.x_agent_pubkey || (is_missing r.x_timestamp || is_missing r.x_signature)
      then raise (http 401 "missing signature headers")
      else (do
        let pubkey = header_or_empty r.x_agent_pubkey
        let timestamp = header_or_empty r.x_timestamp
        let canonical = canonical_request_string lib r.method (target r) timestamp r.body
        validate_timestamp timestamp now
        if verify lib pubkey canonical (header_or_empty r.x_signature)
            then (do agent ← get_agent_by_pubkey pubkey; require_registered agent)
            else raise (http 401 "invalid signature"))

  unfoldable pub is_mutation : String → Bool
  unfolding contains
  is_mutation method = contains (lib.upper method) ("POST" ∷ "PUT" ∷ "PATCH" ∷ "DELETE" ∷ [])

  unfoldable pub require_agent_can_mutate : Request → Agent → Exec Agent
  unfolding is_mutation
  require_agent_can_mutate r agent =
      if is_mutation r.method
        && (agent.status == AgentStatus.soft_banned || agent.status == AgentStatus.hard_banned)
      then raise (http 403 "agent cannot mutate while banned")
      else pure agent

  -- A route with MUTATION_AGENT_DEPENDENCY
  unfoldable pub mutation_agent : Request → ℕ → Exec Agent
  unfolding verify_signed_request require_agent_can_mutate
  mutation_agent r now = do agent ← verify_signed_request r now; require_agent_can_mutate r agent
