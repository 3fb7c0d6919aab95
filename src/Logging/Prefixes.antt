-- ===== src/Logging/Prefixes.antt =====
-- What the access log keeps of an agent's key, and what it does to a request.
use babeltower.Prelude.{
  ℕ, zero, suc, ◌≤◌, String, ◌≡◌, refl, ap, Option, none, some, Bool, true, false, [], ◌∷◌, ◌++◌,
  ◌==◌, string_eq, inl, inr, arith, All, All-append, Bool-cases,
}
use babeltower.World.{World}
use babeltower.Exec.{Exec, Result, ok, err}
use babeltower.Intents.{char_count}
use babeltower.Logging.{
  AccessLog, AccessLine, logged_status, LoggedRequest, first_chars, prefix_of, or_prefix,
  pubkey_of_agent, agent_pubkey_prefix, set_sentry_agent_tag, structured_access_log_middleware,
}

-- No more than eight characters.
abbrev pub IsShort : String → Type 0
IsShort s = char_count s ≤ 8

abbrev pub IsShortOrNone : Option String → Type 0
IsShortOrNone none = Unit
IsShortOrNone (some s) = IsShort s

-- The agent column of every line and every tag that Sentry has are of eight characters at most. The
-- path of a line is not bounded.
pub record IsDiscreet (log : AccessLog) : Type 0 where
  pub lines : All (λ l. IsShortOrNone l.agent_pubkey) log.lines
  pub tags : All IsShort log.tags

-- The status that a result is logged with.
abbrev pub IsStatus : {A : Type 0} → (A → ℕ) → Result A → ℕ → Type 0
IsStatus status_code_of (ok response) n = n ≡ status_code_of response
IsStatus status_code_of (err e) n = n ≡ 500

logged_status_lem :
    {A : Type 0} (status_code_of : A → ℕ) (r : Result A)
    → IsStatus status_code_of r (logged_status status_code_of r)
logged_status_lem status_code_of (ok response) = refl
logged_status_lem status_code_of (err e) = refl

-- The tag does not change the lines.
set_sentry_agent_tag-lines :
    (has_sentry : Bool) (o : Option String) (log : AccessLog)
    → (set_sentry_agent_tag has_sentry o log).lines ≡ log.lines
unfolding set_sentry_agent_tag
set_sentry_agent_tag-lines has_sentry none log = refl
set_sentry_agent_tag-lines true (some p) log = refl
set_sentry_agent_tag-lines false (some p) log = refl

char_count-first_chars : (n : ℕ) (s : String) → char_count (first_chars n s) ≤ n
unfolding char_count first_chars
char_count-first_chars zero s = omega arith
char_count-first_chars (suc n) String.[] = omega arith
char_count-first_chars (suc n) (String.◌∷◌ c s) = omega (arith, char_count-first_chars n s)

prefix_of-IsShort : (o : Option String) → IsShortOrNone (prefix_of o)
unfolding prefix_of
prefix_of-IsShort none = tt
prefix_of-IsShort (some key) = elim (Bool-cases (key == "")) [
  | inl t ↦ rw t tt
  | inr t ↦ rw t (char_count-first_chars 8 key)
]

agent_pubkey_prefix-IsShort :
    (request : LoggedRequest) → IsShortOrNone (agent_pubkey_prefix request)
unfolding agent_pubkey_prefix
agent_pubkey_prefix-IsShort request =
    either (prefix_of (pubkey_of_agent request.agent)) (prefix_of request.x_agent_pubkey)
      (prefix_of-IsShort (pubkey_of_agent request.agent)) (prefix_of-IsShort request.x_agent_pubkey)
  where
    either :
        (a b : Option String) → IsShortOrNone a → IsShortOrNone b → IsShortOrNone (or_prefix a b)
    either none b h k = k
    either (some p) b h k = h

set_sentry_agent_tag-IsDiscreet :
    (has_sentry : Bool) (o : Option String) (log : AccessLog)
    → IsShortOrNone o
    → IsDiscreet log
    → IsDiscreet (set_sentry_agent_tag has_sentry o log)
unfolding set_sentry_agent_tag
set_sentry_agent_tag-IsDiscreet has_sentry none log h d = d
set_sentry_agent_tag-IsDiscreet true (some p) log h d = record {
  lines = d.lines;
  tags = All-append IsShort log.tags (p ∷ []) d.tags (h, tt);
}
set_sentry_agent_tag-IsDiscreet false (some p) log h d = d

-- The access log does not change a request: its result, an exception included, and the world are the
-- handler's. It adds one line, with the method, the path as it stands, which may hold a key, and the
-- response's status, or 500 where the handler raises; and the agent column of that line and the tag
-- have eight characters at most, where those before did.
pub structured_access_log_middleware-IsDiscreet :
    {A : Type 0} (has_sentry : Bool) (status_code_of : A → ℕ) (request : LoggedRequest)
    (latency_ms : String) (call_next : Exec A) (w : World) (log : AccessLog)
    → IsDiscreet log
    → let p =
        structured_access_log_middleware has_sentry status_code_of request latency_ms call_next w
          log in
      (p.0 ≡ call_next w)
      × ((line : AccessLine) × (p.1.lines ≡ log.lines ++ line ∷ [])
          × (line.method ≡ request.method)
          × (line.path ≡ request.path)
          × IsStatus status_code_of (call_next w).0 line.status_code)
      × IsDiscreet p.1
unfolding structured_access_log_middleware
structured_access_log_middleware-IsDiscreet has_sentry status_code_of request latency_ms call_next w
      log d =
    let line : AccessLine = record {
      method = request.method;
      path = request.path;
      agent_pubkey = agent_pubkey_prefix request;
      status_code = logged_status status_code_of (call_next w).0;
      latency_ms = latency_ms;
    } in
    let short = agent_pubkey_prefix-IsShort request in
    let tagged =
      set_sentry_agent_tag-IsDiscreet has_sentry (agent_pubkey_prefix request) log short d in
    (
      refl,
      (
        line,
        ap (λ ls. ls ++ line ∷ [])
            (set_sentry_agent_tag-lines has_sentry (agent_pubkey_prefix request) log),
        refl,
        refl,
        logged_status_lem status_code_of (call_next w).0,
      ),
      record {
        lines = All-append (λ l. IsShortOrNone l.agent_pubkey) _ _ tagged.lines (short, tt);
        tags = tagged.tags;
      },
    )
