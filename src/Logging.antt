-- ===== src/Logging.antt =====
-- src/babeltower/logging.py: the access log and what Sentry is told. The log is a part of the world
-- that only this module writes: its lines, and the tags that Sentry was given, oldest first.
pub mod Prefixes
use babeltower.Prelude.{
  ℕ, zero, suc, String, Option, none, some, Bool, true, false, ◌&&◌, List, [], ◌∷◌, ◌++◌,
  if◌then◌else◌, ◌==◌, string_eq, leb, ltb,
}
use babeltower.Models.{Agent}
use babeltower.World.{World}
use babeltower.Exec.{Exec, Exn, Result, ok, err, http}

-- One line of JSON; `latency_ms` is the text of the rounded number. The path is `request.url.path`
-- whole, for DELETE /block/{pubkey} with the key of the other agent.
pub record AccessLine : Type 0 where
  pub method : String
  pub path : String
  pub agent_pubkey : Option String
  pub status_code : ℕ
  pub latency_ms : String

pub record AccessLog : Type 0 where
  pub lines : List AccessLine
  pub tags : List String

-- What the middleware reads of a request; `agent` is `request.state.agent`, which the handler may
-- have set.
pub record LoggedRequest : Type 0 where
  pub method : String
  pub path : String
  pub x_agent_pubkey : Option String
  pub agent : Option Agent

-- `s[:n]`
unfoldable pub first_chars : ℕ → String → String
first_chars zero s = ""
first_chars (suc n) String.[] = ""
first_chars (suc n) (String.◌∷◌ c s) = String.◌∷◌ c (first_chars n s)

-- The first eight characters of a key that is there and not empty.
unfoldable pub prefix_of : Option String → Option String
unfolding first_chars
prefix_of none = none
prefix_of (some key) = if key == "" then none else some (first_chars 8 key)

abbrev pub or_prefix : Option String → Option String → Option String
or_prefix none other = other
or_prefix (some p) other = some p

abbrev pub pubkey_of_agent : Option Agent → Option String
pubkey_of_agent none = none
pubkey_of_agent (some agent) = some agent.pubkey

unfoldable pub agent_pubkey_prefix : LoggedRequest → Option String
unfolding prefix_of
agent_pubkey_prefix request =
    or_prefix (prefix_of (pubkey_of_agent request.agent)) (prefix_of request.x_agent_pubkey)

-- `set_sentry_agent_tag`; `has_sentry` says whether `sentry_sdk` can be imported.
unfoldable pub set_sentry_agent_tag : Bool → Option String → AccessLog → AccessLog
set_sentry_agent_tag has_sentry none log = log
set_sentry_agent_tag true (some agent_prefix) log = record log {
  tags = log.tags ++ agent_prefix ∷ [];
}
set_sentry_agent_tag false (some agent_prefix) log = log

-- The status that is logged: the response's, or 500 where the handler raises.
abbrev pub logged_status : {A : Type 0} → (A → ℕ) → Result A → ℕ
logged_status status_code_of (ok response) = status_code_of response
logged_status status_code_of (err e) = 500

abbrev access_line : LoggedRequest → ℕ → String → AccessLine
access_line request status_code latency_ms = record {
  method = request.method;
  path = request.path;
  agent_pubkey = agent_pubkey_prefix request;
  status_code = status_code;
  latency_ms = latency_ms;
}

-- The middleware around `call_next`. `request` is as the handler leaves it; the line is written in
-- `finally`, whether the handler returns or raises.
unfoldable pub structured_access_log_middleware :
    {A : Type 0}
    → Bool
    → (A → ℕ)
    → LoggedRequest
    → String
    → Exec A
    → World
    → AccessLog
    → (Result A × World) × AccessLog
unfolding set_sentry_agent_tag agent_pubkey_prefix
structured_access_log_middleware has_sentry status_code_of request latency_ms call_next w log =
    let p = call_next w in
    let tagged = set_sentry_agent_tag has_sentry (agent_pubkey_prefix request) log in
    let line = access_line request (logged_status status_code_of p.0) latency_ms in
    (p, record tagged { lines = tagged.lines ++ line ∷ [] })

-- `getattr(exc, "status_code", None)`
abbrev pub status_code_of_exn : Exn → Option ℕ
status_code_of_exn (http n detail) = some n
status_code_of_exn e = none

abbrev is_client_error : Option ℕ → Bool
is_client_error none = false
is_client_error (some n) = leb 400 n && ltb n 500

-- The hint's exception, where there is one: an event of a client error is dropped.
unfoldable pub sentry_before_send : {A : Type 0} → A → Option Exn → Option A
sentry_before_send event none = some event
sentry_before_send event (some exc) =
    if is_client_error (status_code_of_exn exc) then none else some event
