-- ===== src/Connections/Requested.antt =====
-- src/babeltower/routes/connections.py: what a call of POST /connect leaves in the database, on every
-- path of the handler.
use babeltower.Prelude.{
  ℕ, ◌-◌, String, ◌≡◌, ◌≢◌, refl, ap, ◌∙◌, ◌⊎◌, inl, inr, Option, none, some, Bool, true, false,
  List, [], ◌∷◌, ◌++◌, ◌==◌, string_eq, if◌then◌else◌, leb,
}
use babeltower.Models.{
  Agent, Intent, Block, ConnectionRequest, intent_status_eq, request_status_eq, days,
}
use babeltower.World.{World}
use babeltower.Exec.{
  Exec, Result, ok, http, raise, Response, pure, ◌>>=◌, ◌>>◌, query, reply, error_response,
  scalar_one_or_none, run, begin, continue, commit,
}
use babeltower.Connections.{
  ConnectionCreateRequest, is_some, blocks_between, has_block_between, count_pending_outbound,
  count_requests_sent_since, connect_intents, create_connection_request, create_connection,
  with_intents, load_target, load_from_intent, new_request, add_request,
}
use babeltower.Connections.Made.{make}
use babeltower.Connections.Blocked.{create_connection-IsAllowed}
use babeltower.Moderation.{check_and_apply_soft_ban}
use babeltower.Moderation.Bans.{check_and_apply_soft_ban-Checked, check_and_apply_soft_ban-requests}
use babeltower.Connections.Permitted.{IsPermitted, allowed-IsPermitted}

module _ (id event_id : String) (agent : Agent) (body : ConnectionCreateRequest) (now : ℕ)
    (w : World) where
  -- A run that commits nothing and answers with no request, or the one that makes it.
  abbrev Acts : Agent → Result (Response ConnectionRequest) × World → Type 0
  Acts target p =
      ((p.1.store ≡ w.store) × ((r : ConnectionRequest) → p.0 ≢ ok (reply r)))
      ⊎ (p ≡ make id event_id agent body now target w)

  limited-Acts :
      (target : Agent) (blocked full spent : Bool)
      → Acts target (
          (if blocked
              then pure (error_response 403 "blocked")
              else if full
              then pure (error_response 409 "connection_request_limit_reached")
              else if spent
              then pure (error_response 429 "rate_limited")
              else make id event_id agent body now target)
            w)
  limited-Acts target true full spent = inl (refl, λ r h. cc)
  limited-Acts target false true spent = inl (refl, λ r h. cc)
  limited-Acts target false false true = inl (refl, λ r h. cc)
  limited-Acts target false false false = inr refl

  rows-Acts :
      (target : Agent) (rows : List Block)
      → Acts target (
          (do
            blocked ← (do found ← scalar_one_or_none rows; pure (is_some found))
            pending ← query (count_pending_outbound agent.id now)
            sent ← query (count_requests_sent_since agent.id (now - days 1))
            if blocked
                then pure (error_response 403 "blocked")
                else if leb 20 pending
                then pure (error_response 409 "connection_request_limit_reached")
                else if leb 50 sent
                then pure (error_response 429 "rate_limited")
                else make id event_id agent body now target)
            w)
  unfolding scalar_one_or_none
  rows-Acts target [] = limited-Acts target false _ _
  rows-Acts target (x ∷ []) = inl (refl, λ r h. cc)
  rows-Acts target (x ∷ y ∷ rest) = inl (refl, λ r h. cc)

  self-Acts :
      (target : Agent) (same : Bool) (others : Exec (Response ConnectionRequest))
      → Acts target (others w)
      → Acts target
          ((if same then pure (error_response 400 "cannot_connect_to_self") else others) w)
  self-Acts target true others k = inl (refl, λ r h. cc)
  self-Acts target false others k = k

  connect_intents-Acts :
      (target : Agent) → Acts target (connect_intents id event_id agent target body now w)
  unfolding connect_intents has_block_between
  connect_intents-Acts target =
      self-Acts target (target.id == agent.id) _
        (rows-Acts target (blocks_between agent.id target.id w.work))

  active-Acts :
      (target : Agent) (a b : Bool)
      → Acts target (
          (if (if a then false else true)
              then raise (http 404 "target intent not found")
              else if (if b then false else true)
              then raise (http 404 "from intent not found")
              else connect_intents id event_id agent target body now)
            w)
  active-Acts target false b = inl (refl, λ r h. cc)
  active-Acts target true false = inl (refl, λ r h. cc)
  active-Acts target true true = connect_intents-Acts target

  no_intent-Acts :
      (target : Agent) (a : Bool)
      → Acts target (
          (if (if a then false else true)
              then raise (http 404 "target intent not found")
              else raise (http 404 "from intent not found"))
            w)
  no_intent-Acts target false = inl (refl, λ r h. cc)
  no_intent-Acts target true = inl (refl, λ r h. cc)

  with_intents-Acts :
      (o : Option (Intent × Agent)) (f : Option Intent)
      → (target : Agent) × Acts target (with_intents id event_id agent body now o f w)
  unfolding with_intents
  with_intents-Acts none f = (agent, inl (refl, λ r h. cc))
  with_intents-Acts (some (ti, target)) none = (target, no_intent-Acts target _)
  with_intents-Acts (some (ti, target)) (some fi) = (target, active-Acts target _ _)

  create_connection-Acts :
      (target : Agent) × Acts target (create_connection id event_id agent body now w)
  unfolding create_connection load_target load_from_intent
  create_connection-Acts = with_intents-Acts _ _

-- The end of the handler, after a check that does not raise.
finished :
    (q : ConnectionRequest) (b : Bool) (p : Result Bool × World)
    → p.0 ≡ ok b
    → let left = continue p.0 (λ _. commit >> pure (reply q)) p.1 in
      (left.0 ≡ ok (reply q)) × (left.1.store ≡ p.1.work)
finished q b p e = rw e (refl, refl)

module _ (id event_id : String) (agent : Agent) (body : ConnectionCreateRequest) (now : ℕ) where
  check_and_apply_soft_ban-ok :
      (w : World) → (b : Bool) × ((check_and_apply_soft_ban event_id agent.id now w).0 ≡ ok b)
  check_and_apply_soft_ban-ok w = elim (check_and_apply_soft_ban-Checked event_id agent.id now w) [
    | inl e ↦ (false, ap (λ p. p.0) e)
    | inr b ↦ (true, b.says)
  ]

  -- An answer with a request whose row, the last of the table, is the only one that is new.
  abbrev pub Requests : World → Result (Response ConnectionRequest) × World → Type 0
  Requests w p =
      (r : ConnectionRequest) × (p.0 ≡ ok (reply r))
      × (p.1.store.connection_requests ≡ w.store.connection_requests ++ r ∷ [])
      × IsPermitted id agent body now w.store r

  make-Requests :
      (target : Agent) (w : World)
      → let p = make id event_id agent body now target w in
        let q = new_request id agent.id target.id body now in
        (p.0 ≡ ok (reply q))
        × (p.1.store.connection_requests ≡ w.work.connection_requests ++ q ∷ [])
  unfolding create_connection_request add_request
  make-Requests target w =
      let q = new_request id agent.id target.id body now in
      let stored = record w { store = add_request q w.work; work = add_request q w.work } in
      let said = check_and_apply_soft_ban-ok stored in
      let left = finished q said.0 (check_and_apply_soft_ban event_id agent.id now stored) said.1 in
      (
        left.0,
        ap (λ db. db.connection_requests) left.1
            ∙ check_and_apply_soft_ban-requests event_id agent.id now stored,
      )

  -- POST /connect either leaves the committed database as it was and answers with no request, or
  -- answers with a request whose row is the one new row of the requests. Then the body's target intent
  -- is in the database, active, of an agent other than the caller, the body's own intent is there,
  -- active, of the caller, no block stands between the two agents in either direction, the caller had
  -- fewer than 20 requests pending and not run out and had sent fewer than 50 in a day; and the row is
  -- pending, from the caller to that agent, with the body's intents and message and 72 hours to run.
  pub create_connection-IsPermitted :
      (w : World)
      → let left = run (create_connection id event_id agent body now) w in
        ((left.1.store ≡ w.store) × ((r : ConnectionRequest) → left.0 ≢ ok (reply r)))
        ⊎ Requests w left
  create_connection-IsPermitted w =
      let acts = create_connection-Acts id event_id agent body now (begin w) in
      elim acts.1 [
        | inl k ↦ inl k
        | inr e ↦
            let q = new_request id agent.id acts.0.id body now in
            let made = make-Requests acts.0 (begin w) in
            let answer = ap (λ p. p.0) e ∙ made.0 in
            inr (
              q,
              answer,
              ap (λ p. p.1.store.connection_requests) e ∙ made.1,
              allowed-IsPermitted id agent body now (begin w) q
                  (create_connection-IsAllowed id event_id agent body now (begin w) q answer),
            )
      ]
