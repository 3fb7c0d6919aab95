-- ===== src/Connections/Blocked.antt =====
-- What a block does to `create_connection` of src/babeltower/routes/connections.py.
use babeltower.Prelude.{
  ℕ, ◌<◌, ◌-◌, String, ◌≡◌, refl, Option, none, some, Bool, true, false, List, [], ◌∷◌, arith, ◌==◌,
  string_eq, if◌then◌else◌, leb,
}
use babeltower.Models.{
  Agent, Intent, IntentStatus, intent_status_eq, Block, ConnectionRequest, days,
}
use babeltower.World.{World}
use babeltower.Exec.{
  Exec, Result, ok, err, http, raise, Response, http, raise, pure, commit, ◌>>=◌, ◌>>◌, query,
  continue, reply, error_response, scalar_one_or_none,
}
use babeltower.Connections.{
  ConnectionCreateRequest, is_some, blocks_between, has_block_between, count_pending_outbound,
  count_requests_sent_since, connect_intents, new_request, create_connection_request,
  create_connection, with_intents, load_target, load_from_intent,
}
use babeltower.Moderation.{check_and_apply_soft_ban}

-- What stands in the database when POST /connect makes a request.
pub record HasRoom (agent target : Agent) (now : ℕ) (w : World) : Type 0 where
  pub other : target.id == agent.id ≡ false
  pub no_block : blocks_between agent.id target.id w.work ≡ []
  pub pending : count_pending_outbound agent.id now w.work < 20
  pub sent : count_requests_sent_since agent.id (now - days 1) w.work < 50

module _ (id event_id : String) (agent : Agent) (body : ConnectionCreateRequest) (now : ℕ) where
  -- The rest of `create_connection`, once it is known whether a block was found.
  abbrev limited : Bool → Agent → World → Exec (Response ConnectionRequest)
  limited blocked target w =
      if blocked
      then pure (error_response 403 "blocked")
      else if leb 20 (count_pending_outbound agent.id now w.work)
      then pure (error_response 409 "connection_request_limit_reached")
      else if leb 50 (count_requests_sent_since agent.id (now - days 1) w.work)
      then pure (error_response 429 "rate_limited")
      else (do
        request ← create_connection_request id agent target body now
        check_and_apply_soft_ban event_id agent.id now
        commit
        pure (reply request))

  replied :
      (p : Result Bool × World) (q r : ConnectionRequest)
      → (continue p.0 (λ _. commit >> pure (reply q)) p.1).0 ≡ ok (reply r)
      → r ≡ q
  replied (ok b, v) q r e = cc
  replied (err x, v) q r e = cc

  limited-HasRoom :
      (target : Agent) (w : World) (r : ConnectionRequest)
      → target.id == agent.id ≡ false
      → blocks_between agent.id target.id w.work ≡ []
      → (limited false target w w).0 ≡ ok (reply r)
      → HasRoom agent target now w × (r ≡ new_request id agent.id target.id body now)
  unfolding create_connection_request
  limited-HasRoom target w r o b e = at_pending (leb 20 pending) refl e
    where
      pending : ℕ
      pending = count_pending_outbound agent.id now w.work

      sent : ℕ
      sent = count_requests_sent_since agent.id (now - days 1) w.work

      proceed : Exec (Response ConnectionRequest)
      proceed = do
        request ← create_connection_request id agent target body now
        check_and_apply_soft_ban event_id agent.id now
        commit
        pure (reply request)

      at_sent :
          (t : Bool)
          → leb 50 sent ≡ t
          → ((if t then pure (error_response 429 "rate_limited") else proceed) w).0 ≡ ok (reply r)
          → (sent < 50) × (r ≡ new_request id agent.id target.id body now)
      at_sent true s h = cc
      at_sent false s h =
          (ground (arith, s), replied (check_and_apply_soft_ban event_id agent.id now _) _ r h)

      at_pending :
          (t : Bool)
          → leb 20 pending ≡ t
          → ((if t
                then pure (error_response 409 "connection_request_limit_reached")
                else if leb 50 sent
                then pure (error_response 429 "rate_limited")
                else proceed)
              w).0
            ≡ ok (reply r)
          → HasRoom agent target now w × (r ≡ new_request id agent.id target.id body now)
      at_pending true p h = cc
      at_pending false p h =
          let s = at_sent (leb 50 sent) refl h in
          (record { other = o; no_block = b; pending = ground (arith, p); sent = s.0 }, s.1)

  connect_intents-HasRoom :
      (target : Agent) (w : World) (r : ConnectionRequest)
      → (connect_intents id event_id agent target body now w).0 ≡ ok (reply r)
      → HasRoom agent target now w × (r ≡ new_request id agent.id target.id body now)
  unfolding connect_intents has_block_between scalar_one_or_none
  connect_intents-HasRoom target w r e = at_self _ (target.id == agent.id) (λ h. h) refl e
    where
      after_rows : List Block → Exec (Response ConnectionRequest)
      after_rows rows = do
        blocked ← (do found ← scalar_one_or_none rows; pure (is_some found))
        pending ← query (count_pending_outbound agent.id now)
        sent ← query (count_requests_sent_since agent.id (now - days 1))
        if blocked
            then pure (error_response 403 "blocked")
            else if leb 20 pending
            then pure (error_response 409 "connection_request_limit_reached")
            else if leb 50 sent
            then pure (error_response 429 "rate_limited")
            else (do
              request ← create_connection_request id agent target body now
              check_and_apply_soft_ban event_id agent.id now
              commit
              pure (reply request))

      at_rows :
          (rows : List Block)
          → target.id == agent.id ≡ false
          → blocks_between agent.id target.id w.work ≡ rows
          → (after_rows rows w).0 ≡ ok (reply r)
          → HasRoom agent target now w × (r ≡ new_request id agent.id target.id body now)
      at_rows [] o b h = limited-HasRoom target w r o b h
      at_rows (x ∷ []) o b h = cc
      at_rows (x ∷ y ∷ rest) o b h = cc

      at_self :
          (unblocked : Exec (Response ConnectionRequest)) (t : Bool)
          → ((unblocked w).0 ≡ ok (reply r)
              → (after_rows (blocks_between agent.id target.id w.work) w).0 ≡ ok (reply r))
          → target.id == agent.id ≡ t
          → ((if t then pure (error_response 400 "cannot_connect_to_self") else unblocked) w).0
            ≡ ok (reply r)
          → HasRoom agent target now w × (r ≡ new_request id agent.id target.id body now)
      at_self unblocked true k o h = cc
      at_self unblocked false k o h =
          at_rows (blocks_between agent.id target.id w.work) o refl (k h)

-- What POST /connect has found when it makes a request.
pub record IsAllowed (id : String) (agent : Agent) (body : ConnectionCreateRequest) (now : ℕ)
    (w : World) (r : ConnectionRequest) : Type 0 where
  pub target_intent : Intent
  pub target : Agent
  pub from_intent : Intent
  pub aims : (load_target body.target_intent_id w).0 ≡ ok (some (target_intent, target))
  pub owns : (load_from_intent body.from_intent_id agent.id w).0 ≡ ok (some from_intent)
  pub target_active : target_intent.status == IntentStatus.active ≡ true
  pub from_active : from_intent.status == IntentStatus.active ≡ true
  pub room : HasRoom agent target now w
  pub row : r ≡ new_request id agent.id target.id body now

-- Where POST /connect answers with a request, the target intent was found with its agent and the
-- caller's own intent was found, both active; the agent is another one than the caller, and no
-- block stands between them in either direction; the caller had fewer than 20 pending requests and
-- sent fewer than 50 in a day; and the answer is the new pending row with these two agents.
pub create_connection-IsAllowed :
    (id event_id : String) (agent : Agent) (body : ConnectionCreateRequest) (now : ℕ) (w : World)
    (r : ConnectionRequest)
    → (create_connection id event_id agent body now w).0 ≡ ok (reply r)
    → IsAllowed id agent body now w r
unfolding create_connection with_intents load_target load_from_intent
create_connection-IsAllowed id event_id agent body now w r e = go _ _ refl refl e
  where
    active : Intent → Bool
    active i = i.status == IntentStatus.active

    at_from :
        (ti fi : Intent) (target : Agent) (a b : Bool)
        → active ti ≡ a
        → active fi ≡ b
        → (load_target body.target_intent_id w).0 ≡ ok (some (ti, target))
        → (load_from_intent body.from_intent_id agent.id w).0 ≡ ok (some fi)
        → ((if (if a then false else true)
              then raise (http 404 "target intent not found")
              else if (if b then false else true)
              then raise (http 404 "from intent not found")
              else connect_intents id event_id agent target body now)
            w).0
          ≡ ok (reply r)
        → IsAllowed id agent body now w r
    at_from ti fi target false b p q t f h = cc
    at_from ti fi target true false p q t f h = cc
    at_from ti fi target true true p q t f h =
        let c = connect_intents-HasRoom id event_id agent body now target w r h in
        record {
          target_intent = ti;
          target = target;
          from_intent = fi;
          aims = t;
          owns = f;
          target_active = p;
          from_active = q;
          room = c.0;
          row = c.1;
        }

    go :
        (o : Option (Intent × Agent)) (f : Option Intent)
        → (load_target body.target_intent_id w).0 ≡ ok o
        → (load_from_intent body.from_intent_id agent.id w).0 ≡ ok f
        → (with_intents id event_id agent body now o f w).0 ≡ ok (reply r)
        → IsAllowed id agent body now w r
    go none f t g h = cc
    go (some (ti, target)) none t g h = at_none ti (active ti) h
      where
        at_none :
            Intent
            → (a : Bool)
            → ((if (if a then false else true)
                  then raise (http 404 "target intent not found")
                  else raise (http 404 "from intent not found"))
                w).0
              ≡ ok (reply r)
            → IsAllowed id agent body now w r
        at_none i true h = cc
        at_none i false h = cc
    go (some (ti, target)) (some fi) t g h =
        at_from ti fi target (active ti) (active fi) refl refl t g h
