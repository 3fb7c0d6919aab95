-- ===== src/Auth/Accepted.antt =====
-- What is known of a request that the dependencies of src/babeltower/auth.py let through.
use babeltower.Prelude.{
  ℕ, ◌≤◌, String, ◌≡◌, ◌≢◌, refl, Option, none, some, Bool, true, false, ◌||◌, List, [], ◌∷◌, arith,
  ◌==◌, string_eq, select, if◌then◌else◌, subst,
}
use text.Mathlib.TextEquality.{eq_iff}
use babeltower.Models.{Agent, AgentStatus, agent_status_eq, seconds}
use babeltower.World.{World}
use babeltower.Exec.{Exec, ok, http, raise, pure, ◌>>=◌, ◌>>◌, scalar_one_or_none}
use babeltower.Clock.{Moment, parse_timestamp, is_stale, distance}
use babeltower.Crypto.{CryptoLib, verify, canonical_request_string}
use babeltower.Auth.{
  Request, target, is_missing, header_or_empty, get_agent_by_pubkey, validate_timestamp,
  require_registered, verify_signed_request,
}

module _ (lib : CryptoLib) (from_isoformat : String → Moment) where
  -- The request is signed by a registered agent, and it is at most a minute old or ahead.
  pub record IsAuthentic (r : Request) (now : ℕ) (w : World) (agent : Agent) : Type 0 where
    pub time : ℕ
    pub dated : parse_timestamp from_isoformat (header_or_empty r.x_timestamp) ≡ some time
    pub fresh : distance now time ≤ seconds 60
    pub signed :
        verify lib agent.pubkey
          (canonical_request_string lib r.method (target r) (header_or_empty r.x_timestamp) r.body)
          (header_or_empty r.x_signature)
        ≡ true
    pub row : select (λ a. a.pubkey == header_or_empty r.x_agent_pubkey) w.work.agents ≡ agent ∷ []
    pub not_banned : agent.status ≢ AgentStatus.hard_banned
    pub not_deleted : agent.status ≢ AgentStatus.deleted

  abbrev Admitted : Option Agent → Agent → Type 0
  Admitted o agent =
      (o ≡ some agent)
      × (agent.status ≢ AgentStatus.hard_banned)
      × (agent.status ≢ AgentStatus.deleted)

  registered :
      (o : Option Agent) (w : World) (agent : Agent)
      → (require_registered lib from_isoformat o w).0 ≡ ok agent
      → Admitted o agent
  unfolding require_registered
  registered none w agent e = cc
  registered (some a) w agent e = go _ refl e
    where
      barred : Bool
      barred = a.status == AgentStatus.hard_banned || a.status == AgentStatus.deleted

      go :
          (b : Bool)
          → barred ≡ b
          → ((if b then raise (http 401 "agent not registered") else pure a) w).0 ≡ ok agent
          → Admitted (some a) agent
      go true t h = cc
      go false t h =
          let same : a ≡ agent = cc in
          subst (Admitted (some a)) same
            (refl, λ k. ground (arith, t, k), λ k. ground (arith, t, k))

  -- What the two last steps let through.
  looked_up :
      (rows : List Agent) (w : World) (agent : Agent)
      → ((scalar_one_or_none rows >>= require_registered lib from_isoformat) w).0 ≡ ok agent
      → (rows ≡ agent ∷ []) × Admitted (some agent) agent
  unfolding scalar_one_or_none
  looked_up [] w agent e = absurd (none_admitted (registered none w agent e).0)
    where
      none_admitted : none ≡ some agent → ⊥
      none_admitted h = cc
  looked_up (y ∷ []) w agent e =
      let known = registered (some y) w agent e in
      let same : y ≡ agent = cc in (rw same refl, (refl, known.1, known.2))
  looked_up (y ∷ z ∷ rest) w agent e = cc

  select_sound :
      {A : Type 0} (p : A → Bool) (xs : List A) (x : A) (rest : List A)
      → select p xs ≡ x ∷ rest
      → p x ≡ true
  unfolding select
  select_sound p [] x rest e = cc
  select_sound p (y ∷ ys) x rest e = go (p y) refl (select_sound p ys x rest) e
    where
      go :
          (b : Bool)
          → p y ≡ b
          → (select p ys ≡ x ∷ rest → p x ≡ true)
          → (if b then y ∷ select p ys else select p ys) ≡ x ∷ rest
          → p x ≡ true
      go true t k h = let same : y ≡ x = cc in subst (λ z. p z ≡ true) same t
      go false t k h = k h

  near : (now t : ℕ) → is_stale now t ≡ false → distance now t ≤ seconds 60
  unfolding is_stale
  near now t h = ground (arith, h)

  -- A timestamp that is let through, and what comes after it.
  timely :
      (value : String) (now : ℕ) (k : Exec Agent) (w : World) (agent : Agent)
      → ((validate_timestamp lib from_isoformat value now >> k) w).0 ≡ ok agent
      → (t : ℕ) × (parse_timestamp from_isoformat value ≡ some t)
        × (is_stale now t ≡ false)
        × ((k w).0 ≡ ok agent)
  unfolding validate_timestamp
  timely value now k w agent e = go (parse_timestamp from_isoformat value) refl e
    where
      judge : ℕ → Exec (Unit {0})
      judge t =
          if is_stale now t then raise (http 401 "timestamp outside allowed window") else pure tt

      stamp : Option ℕ → Exec (Unit {0})
      stamp o = elim o [ none ↦ raise (http 401 "invalid timestamp") | some t ↦ judge t ]

      fresh :
          (t : ℕ) (b : Bool)
          → is_stale now t ≡ b
          → (((if b then raise (http 401 "timestamp outside allowed window") else pure tt) >> k)
              w).0
            ≡ ok agent
          → (b ≡ false) × ((k w).0 ≡ ok agent)
      fresh t true s h = cc
      fresh t false s h = (refl, h)

      go :
          (o : Option ℕ)
          → parse_timestamp from_isoformat value ≡ o
          → ((stamp o >> k) w).0 ≡ ok agent
          → (t : ℕ) × (o ≡ some t) × (is_stale now t ≡ false) × ((k w).0 ≡ ok agent)
      go none p h = cc
      go (some t) p h = let f = fresh t (is_stale now t) refl h in (t, refl, f.0, f.1)

  -- A request that `verify_signed_request` lets through, as some agent, carries a signature that
  -- verifies under that agent's key over the method, the target, the timestamp and the body; its
  -- timestamp is at most a minute away from the clock; and the agent is the one row with the key that
  -- the request names, neither hard-banned nor deleted.
  pub verify_signed_request-IsAuthentic :
      (r : Request) (now : ℕ) (w : World) (agent : Agent)
      → (verify_signed_request lib from_isoformat r now w).0 ≡ ok agent
      → IsAuthentic r now w agent
  unfolding verify_signed_request get_agent_by_pubkey
  verify_signed_request-IsAuthentic r now w agent e =
      headed (is_missing r.x_agent_pubkey || (is_missing r.x_timestamp || is_missing r.x_signature))
        e
    where
      pubkey : String
      pubkey = header_or_empty r.x_agent_pubkey

      canonical : List ℕ
      canonical =
          canonical_request_string lib r.method (target r) (header_or_empty r.x_timestamp) r.body

      rest : Bool → Exec Agent
      rest b =
          if b
          then (do agent ← get_agent_by_pubkey pubkey; require_registered lib from_isoformat agent)
          else raise (http 401 "invalid signature")

      signed :
          (b : Bool)
          → verify lib pubkey canonical (header_or_empty r.x_signature) ≡ b
          → (rest b w).0 ≡ ok agent
          → (b ≡ true)
            × (select (λ a. a.pubkey == pubkey) w.work.agents ≡ agent ∷ [])
            × (agent.status ≢ AgentStatus.hard_banned)
            × (agent.status ≢ AgentStatus.deleted)
      signed true v h =
          let found = looked_up (select (λ a. a.pubkey == pubkey) w.work.agents) w agent h in
          (refl, found.0, found.1.1, found.1.2)
      signed false v h = cc

      named :
          select (λ a. a.pubkey == pubkey) w.work.agents ≡ agent ∷ []
          → verify lib pubkey canonical (header_or_empty r.x_signature) ≡ true
          → verify lib agent.pubkey canonical (header_or_empty r.x_signature) ≡ true
      named h v =
          let own = select_sound (λ a. a.pubkey == pubkey) w.work.agents agent [] h in
          rw ((eq_iff agent.pubkey pubkey).0 own) v

      headed :
          (b : Bool)
          → ((if b
                then raise (http 401 "missing signature headers")
                else (validate_timestamp lib from_isoformat (header_or_empty r.x_timestamp) now
                    >> rest (verify lib pubkey canonical (header_or_empty r.x_signature))))
              w).0
            ≡ ok agent
          → IsAuthentic r now w agent
      headed true h = cc
      headed false h =
          let t = timely (header_or_empty r.x_timestamp) now _ w agent h in
          let s = signed (verify lib pubkey canonical (header_or_empty r.x_signature)) refl t.3 in
          record {
            time = t.0;
            dated = t.1;
            fresh = near now t.0 t.2;
            signed = named s.1 s.0;
            row = s.1;
            not_banned = s.2;
            not_deleted = s.3;
          }
