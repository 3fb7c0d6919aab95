-- ===== src/Inbox/Asked.antt =====
-- A connection request that is made, src/babeltower/routes/connections.py, and the inbox of the agent
-- that it goes to, src/babeltower/routes/inbox.py.
use babeltower.Prelude.{
  ℕ, ◌<◌, String, ◌≡◌, refl, ap, ◌∙◌, ◌⊎◌, subst, some, Bool, List, [], ◌∷◌, ◌++◌, inl, inr, ◌==◌,
  string_eq, arith, find, update_where, find-update_row-same, find-update_where-keeps, In,
  In-append, In-query,
}
use text.Mathlib.TextEquality.{eq_iff}
use babeltower.Models.{
  Db, Agent, Intent, ConnectionRequest, IntentStatus, RequestStatus, request_status_eq,
}
use babeltower.World.{World}
use babeltower.Exec.{Result, ok, err, run, begin, reply, commit, pure, continue, ◌>>◌}
use babeltower.Moderation.{check_and_apply_soft_ban, sleep}
use babeltower.Moderation.Bans.{check_and_apply_soft_ban-Checked}
use babeltower.Connections.{
  ConnectionCreateRequest, new_request, add_request, create_connection_request, create_connection,
}
use babeltower.Connections.Made.{make, create_connection-Makes}
use babeltower.Relay.Persist.{on_agent}
use babeltower.Schemas.{InboxResponse, InboxPendingRequest}
use babeltower.Inbox.{
  seen_at, agent_by_id, is_pending_inbound, with_sender, pending_request, pending_requests,
  load_inbox, get_inbox,
}

-- The row of a request, with its sender, by the key, and the sender's intent, up to its status.
record IsAsked (a : Agent) (i : Intent) (r : ConnectionRequest) (db : Db) : Type 0 where
  sender : Agent
  is_sender : agent_by_id r.from_agent_id db ≡ some sender
  key : sender.pubkey ≡ a.pubkey
  intent : Intent
  is_intent : find (λ j. j.id == r.from_intent_id) db.intents ≡ some intent
  same : sleep intent ≡ sleep i
  status : (intent.status ≡ i.status) ⊎ (intent.status ≡ IntentStatus.dormant)
  here : In r db.connection_requests

-- What the receiver is told of the request `r` from `a` for the intent `i`, with a status of the
-- intent.
abbrev pub told : Agent → Intent → ConnectionRequest → IntentStatus → InboxPendingRequest
told a i r status = record {
  request_id = r.id;
  from_agent_pubkey = a.pubkey;
  from_intent = record {
    intent_id = i.id;
    agent_pubkey = a.pubkey;
    match_type = i.match_type;
    seeking = i.seeking;
    offering = i.offering;
    constraints = i.constraints;
    filters = i.filters;
    ttl_days = i.ttl_days;
    created_at = i.created_at;
    expires_at = i.expires_at;
    status = status;
  };
  target_intent_id = r.target_intent_id;
  opening_message = r.opening_message;
  received_at = r.created_at;
  expires_at = r.expires_at;
}

-- A list of pending requests tells of `r`, with the intent's status or as dormant.
abbrev pub Tells : Agent → Intent → ConnectionRequest → List InboxPendingRequest → Type 0
Tells a i r list = In (told a i r i.status) list ⊎ In (told a i r IntentStatus.dormant) list

told_same :
    (a b : Agent) (i j : Intent) (r : ConnectionRequest)
    → b.pubkey ≡ a.pubkey
    → sleep j ≡ sleep i
    → pending_request (r, (b, j)) ≡ told a i r j.status
told_same a b i j r key same =
    ap (λ k. told (record a { pubkey = k }) j r j.status) key ∙ ap (λ k. told a k r j.status) same

module _ (a : Agent) (i : Intent) (r : ConnectionRequest) where
  -- An update of an agent's row that keeps its id and its key.
  IsAsked-on_agent :
      (id : String) (f : Agent → Agent) (db : Db)
      → ((x : Agent) → (f x).id ≡ x.id)
      → ((x : Agent) → (f x).pubkey ≡ x.pubkey)
      → IsAsked a i r db
      → IsAsked a i r (on_agent id f db)
  IsAsked-on_agent id f db k g h =
      let found =
        find-update_row-same (λ x. x.id == r.from_agent_id) (λ x. x.id == id) f (λ x. x.pubkey)
          db.agents (λ x. ap (λ y. y == r.from_agent_id) (k x)) g h.is_sender in
      record {
        sender = found.0;
        is_sender = found.1;
        key = found.2 ∙ h.key;
        intent = h.intent;
        is_intent = h.is_intent;
        same = h.same;
        status = h.status;
        here = h.here;
      }

  IsAsked-sleep :
      (p : Intent → Bool) (db : Db)
      → IsAsked a i r db
      → IsAsked a i r (record db { intents = update_where p sleep db.intents })
  IsAsked-sleep p db h =
      let found =
        find-update_where-keeps
          (λ j. (sleep j ≡ sleep i) × ((j.status ≡ i.status) ⊎ (j.status ≡ IntentStatus.dormant)))
          (λ j. j.id == r.from_intent_id) p sleep db.intents (λ j. refl) (λ j k. (k.0, inr refl))
          h.is_intent (h.same, h.status) in
      record {
        sender = h.sender;
        is_sender = h.is_sender;
        key = h.key;
        intent = found.0;
        is_intent = found.1;
        same = found.2.0;
        status = found.2.1;
        here = h.here;
      }

  -- Only three tables matter.
  IsAsked-tables :
      (x y : Db)
      → y.agents ≡ x.agents
      → y.intents ≡ x.intents
      → y.connection_requests ≡ x.connection_requests
      → IsAsked a i r x
      → IsAsked a i r y
  IsAsked-tables x y e f g h = record {
    sender = h.sender;
    is_sender = rw e h.is_sender;
    key = h.key;
    intent = h.intent;
    is_intent = rw f h.is_intent;
    same = h.same;
    status = h.status;
    here = rw g h.here;
  }

  checked-IsAsked :
      (event_id id : String) (now : ℕ) (w : World)
      → IsAsked a i r w.work
      → IsAsked a i r (check_and_apply_soft_ban event_id id now w).1.work
  checked-IsAsked event_id id now w h = elim (check_and_apply_soft_ban-Checked event_id id now w) [
    | inl e ↦ rw e h
    | inr b ↦
        IsAsked-tables _ _ b.agents b.intents b.requests
          (IsAsked-sleep _ _ (IsAsked-on_agent b.agent.id _ w.work (λ x. refl) (λ x. refl) h))
  ]

  -- A poll of the agent that the request went to, before it runs out.
  polled-IsAsked :
      (poller_id : String) (later : ℕ) (db : Db)
      → IsAsked a i r db
      → r.to_agent_id ≡ poller_id
      → r.status ≡ RequestStatus.pending
      → later < r.expires_at
      → Tells a i r (pending_requests poller_id later (on_agent poller_id (seen_at later) db))
  unfolding pending_requests
  polled-IsAsked poller_id later db h to st t =
      let k = IsAsked-on_agent poller_id (seen_at later) db (λ x. refl) (λ x. refl) h in
      let mine = (eq_iff r.to_agent_id poller_id).1 to in
      let pending = (request_status_eq.equals_iff r.status RequestStatus.pending).1 st in
      let joined : with_sender (on_agent poller_id (seen_at later) db) r
          ≡ some (r, (k.sender, k.intent)) =
        rw (k.is_sender, k.is_intent) refl in
      let one = told_same a k.sender i k.intent r k.key k.same in
      let listed =
        subst (λ q. In q (pending_requests poller_id later (on_agent poller_id (seen_at later) db)))
          one
          ((In-query (is_pending_inbound poller_id later)
              (with_sender (on_agent poller_id (seen_at later) db)) _ pending_request
              db.connection_requests).1
            (
              r,
              (r, (k.sender, k.intent)),
              k.here,
              ground (arith, mine, pending, t),
              joined,
              refl,
            )) in
      elim k.status [ inl e ↦ inl (rw (← e) listed) | inr e ↦ inr (rw (← e) listed) ]

replied :
    (q r : ConnectionRequest) (p : Result Bool × World)
    → let left = continue p.0 (λ _. commit >> pure (reply q)) p.1 in
      left.0 ≡ ok (reply r) → (r ≡ q) × (left.1.store ≡ p.1.work)
replied q r (ok b, v) h = (cc, refl)
replied q r (err e, v) h = cc

module _ (id event_id : String) (agent : Agent) (body : ConnectionCreateRequest) (now : ℕ)
    {a : Agent} {i : Intent} where
  add_request-IsAsked :
      (target_id : String) (db : Db)
      → agent_by_id agent.id db ≡ some a
      → find (λ j. j.id == body.from_intent_id) db.intents ≡ some i
      → let q = new_request id agent.id target_id body now in IsAsked a i q (add_request q db)
  unfolding add_request new_request
  add_request-IsAsked target_id db ea ei =
      let q = new_request id agent.id target_id body now in
      IsAsked-on_agent a i q target_id _ (on_agent agent.id _ (added q)) (λ x. refl) (λ x. refl)
        (IsAsked-on_agent a i q agent.id _ (added q) (λ x. refl) (λ x. refl)
          (record {
            sender = a;
            is_sender = ea;
            key = refl;
            intent = i;
            is_intent = ei;
            same = refl;
            status = inl refl;
            here = In-append db.connection_requests (q ∷ []) q (inl refl);
          }))
    where
      added : ConnectionRequest → Db
      added q = record db { connection_requests = db.connection_requests ++ q ∷ [] }

  make-IsAsked :
      (target : Agent) (r : ConnectionRequest) (w : World)
      → agent_by_id agent.id w.work ≡ some a
      → find (λ j. j.id == body.from_intent_id) w.work.intents ≡ some i
      → let left = make id event_id agent body now target w in
        left.0 ≡ ok (reply r)
        → (r ≡ new_request id agent.id target.id body now) × IsAsked a i r left.1.store
  unfolding create_connection_request
  make-IsAsked target r w ea ei h =
      let q = new_request id agent.id target.id body now in
      let stored = record w { store = add_request q w.work; work = add_request q w.work } in
      let answer = replied q r (check_and_apply_soft_ban event_id agent.id now stored) h in
      (
        answer.0,
        rw (answer.0, answer.1)
            (checked-IsAsked a i q event_id agent.id now stored
              (add_request-IsAsked target.id w.work ea ei)),
      )

  -- Where POST /connect answers with a request, the agent it goes to finds it pending when it polls
  -- before the request runs out: with its id, opening message and dates, the key of the sender, and
  -- the sender's intent with all that the row said of it, its status as it was or dormant.
  pub create_connection-IsShown :
      (poller : Agent) (r : ConnectionRequest) (later : ℕ) (w : World)
      → agent_by_id agent.id w.store ≡ some a
      → find (λ j. j.id == body.from_intent_id) w.store.intents ≡ some i
      → let left = run (create_connection id event_id agent body now) w in
        left.0 ≡ ok (reply r)
        → r.to_agent_id ≡ poller.id
        → later < r.expires_at
        → (inbox : InboxResponse) × ((run (get_inbox poller later) left.1).0 ≡ ok inbox)
          × (Tells a i r inbox.pending_requests)
  unfolding get_inbox load_inbox new_request
  create_connection-IsShown poller r later w ea ei h to t =
      let made = create_connection-Makes id event_id agent body now r (begin w) h in
      let asked = make-IsAsked made.0 r (begin w) ea ei (rw (← made.1) h) in
      (
        _,
        refl,
        rw made.1
            (polled-IsAsked a i r poller.id later _ asked.1 to (ap (λ q. q.status) asked.0) t),
      )
