-- ===== src/Connections/Made.antt =====
-- What `create_connection` of src/babeltower/routes/connections.py has run when it answers with a
-- request.
use babeltower.Prelude.{
  ℕ, ◌-◌, String, ◌≡◌, ◌≢◌, refl, Option, none, some, Bool, true, false, List, [], ◌∷◌, ◌==◌,
  string_eq, if◌then◌else◌, leb,
}
use babeltower.Models.{Agent, Intent, intent_status_eq, Block, ConnectionRequest, days}
use babeltower.World.{World}
use babeltower.Exec.{
  Exec, Result, ok, http, raise, Response, pure, commit, ◌>>=◌, ◌>>◌, query, reply, error_response,
  scalar_one_or_none,
}
use babeltower.Connections.{
  ConnectionCreateRequest, is_some, blocks_between, has_block_between, count_pending_outbound,
  count_requests_sent_since, connect_intents, create_connection_request, create_connection,
  with_intents, load_target, load_from_intent,
}
use babeltower.Moderation.{check_and_apply_soft_ban}

module _ (id event_id : String) (agent : Agent) (body : ConnectionCreateRequest) (now : ℕ) where
  -- The statements that make the request.
  abbrev pub make : Agent → Exec (Response ConnectionRequest)
  make target = do
    request ← create_connection_request id agent target body now
    check_and_apply_soft_ban event_id agent.id now
    commit
    pure (reply request)

  module _ (r : ConnectionRequest) (w : World) where
    -- A run that answers with the request has run these.
    abbrev Makes : Agent → Result (Response ConnectionRequest) × World → Type 0
    Makes target p = p.0 ≡ ok (reply r) → p ≡ make target w

    limited-Makes :
        (target : Agent) (blocked full spent : Bool)
        → Makes target (
            (if blocked
                then pure (error_response 403 "blocked")
                else if full
                then pure (error_response 409 "connection_request_limit_reached")
                else if spent
                then pure (error_response 429 "rate_limited")
                else make target)
              w)
    limited-Makes target true full spent h = cc
    limited-Makes target false true spent h = cc
    limited-Makes target false false true h = cc
    limited-Makes target false false false h = refl

    rows-Makes :
        (target : Agent) (rows : List Block)
        → Makes target (
            (do
              blocked ← (do found ← scalar_one_or_none rows; pure (is_some found))
              pending ← query (count_pending_outbound agent.id now)
              sent ← query (count_requests_sent_since agent.id (now - days 1))
              if blocked
                  then pure (error_response 403 "blocked")
                  else if leb 20 pending
                  then pure (error_response 409 "connection_request_limit_reached")
                  else if leb 50 sent
                  then pure (error_response 429 "rate_limited")
                  else make target)
              w)
    unfolding scalar_one_or_none
    rows-Makes target [] h = limited-Makes target false _ _ h
    rows-Makes target (x ∷ []) h = cc
    rows-Makes target (x ∷ y ∷ rest) h = cc

    self-Makes :
        (target : Agent) (same : Bool) (others : Exec (Response ConnectionRequest))
        → Makes target (others w)
        → Makes target
            ((if same then pure (error_response 400 "cannot_connect_to_self") else others) w)
    self-Makes target true others k h = cc
    self-Makes target false others k h = k h

    connect_intents-Makes :
        (target : Agent) → Makes target (connect_intents id event_id agent target body now w)
    unfolding connect_intents has_block_between
    connect_intents-Makes target h =
        self-Makes target (target.id == agent.id) _
          (rows-Makes target (blocks_between agent.id target.id w.work)) h

    active-Makes :
        (target : Agent) (a b : Bool)
        → Makes target (
            (if (if a then false else true)
                then raise (http 404 "target intent not found")
                else if (if b then false else true)
                then raise (http 404 "from intent not found")
                else connect_intents id event_id agent target body now)
              w)
    active-Makes target false b h = cc
    active-Makes target true false h = cc
    active-Makes target true true h = connect_intents-Makes target h

    -- The target's intent is there, but none of the caller's.
    no_intent :
        (a : Bool)
        → ((if (if a then false else true)
              then raise {A = Response ConnectionRequest} (http 404 "target intent not found")
              else raise (http 404 "from intent not found"))
            w).0
          ≢ ok (reply r)
    no_intent true h = cc
    no_intent false h = cc

    with_intents-Makes :
        (o : Option (Intent × Agent)) (f : Option Intent)
        → let p = with_intents id event_id agent body now o f w in
          p.0 ≡ ok (reply r) → (target : Agent) × (p ≡ make target w)
    unfolding with_intents
    with_intents-Makes none f h = cc
    with_intents-Makes (some (ti, target)) none h = absurd (no_intent _ h)
    with_intents-Makes (some (ti, target)) (some fi) h = (target, active-Makes target _ _ h)

    pub create_connection-Makes :
        let p = create_connection id event_id agent body now w in
        p.0 ≡ ok (reply r) → (target : Agent) × (p ≡ make target w)
    unfolding create_connection load_target load_from_intent
    create_connection-Makes h = with_intents-Makes _ _ h
