-- ===== src/Connections/Permitted.antt =====
-- src/babeltower/routes/connections.py: what stands in the database where POST /connect makes a
-- request.
use babeltower.Prelude.{
  ℕ, ◌+◌, ◌-◌, ◌<◌, String, ◌≡◌, ◌≢◌, refl, ap, ◌⊎◌, inl, inr, Option, none, some, true, ◌&&◌, ◌||◌,
  [], ◌==◌, string_eq, leb, ltb, arith, find, count, All, All-unselected, In, In-find, find_sound,
}
use mathlib.Core.Option.{some-injective}
use text.Mathlib.TextEquality.{eq_iff}
use babeltower.Models.{
  Db, Agent, Intent, Block, ConnectionRequest, IntentStatus, RequestStatus, intent_status_eq,
  request_status_eq, days, hours,
}
use babeltower.World.{World}
use babeltower.Exec.{Result, ok, err}
use babeltower.Connections.{
  ConnectionCreateRequest, blocks_between, count_pending_outbound, count_requests_sent_since,
  load_target, load_from_intent, new_request, target_row,
}
use babeltower.Connections.Blocked.{IsAllowed}

-- A block of one of the two agents by the other.
abbrev pub Separates : String → String → Block → Type 0
Separates a_id b_id b =
    ((b.blocker_id ≡ a_id) × (b.blocked_id ≡ b_id))
    ⊎ ((b.blocker_id ≡ b_id) × (b.blocked_id ≡ a_id))

-- What stands in the database where a request may be made, and the row that is made.
pub record IsPermitted (id : String) (agent : Agent) (body : ConnectionCreateRequest) (now : ℕ)
    (db : Db) (r : ConnectionRequest) : Type 0 where
  pub target_intent : Intent
  pub target : Agent
  pub from_intent : Intent
  pub aims : In target_intent db.intents × (target_intent.id ≡ body.target_intent_id)
  pub owned : In target db.agents × (target.id ≡ target_intent.agent_id)
  pub own :
      In from_intent db.intents
      × (from_intent.id ≡ body.from_intent_id)
      × (from_intent.agent_id ≡ agent.id)
  pub target_active : target_intent.status ≡ IntentStatus.active
  pub from_active : from_intent.status ≡ IntentStatus.active
  pub other : target.id ≢ agent.id
  pub unblocked : All (λ b. ¬ Separates agent.id target.id b) db.blocks
  pub pending :
      count
        (λ q.
          q.from_agent_id == agent.id
          && (q.status == RequestStatus.pending && ltb now q.expires_at))
        db.connection_requests
      < 20
  pub sent :
      count
        (λ q. q.from_agent_id == agent.id && leb (now - days 1) q.created_at)
        db.connection_requests
      < 50
  pub row : r ≡ (record {
    id = id;
    from_agent_id = agent.id;
    to_agent_id = target.id;
    target_intent_id = body.target_intent_id;
    from_intent_id = body.from_intent_id;
    opening_message = body.opening_message;
    status = RequestStatus.pending;
    created_at = now;
    expires_at = now + hours 72;
    responded_at = none;
    rejection_reason = none;
  })

ok-injective : {A : Type 0} {a b : A} → ok a ≡ ok b → a ≡ b
ok-injective {A} {a} {b} e = some-injective a b (ap to e)
  where
    to : Result A → Option A
    to (ok x) = some x
    to (err x) = none

joined :
    (db : Db) (i ti : Intent) (t : Agent) (o : Option Agent)
    → ◌≡◌ {A = Option (Intent × Agent)}
        (elim o [ none ↦ none | some a ↦ some (i, a) ])
        (some (ti, t))
    → (i ≡ ti) × (o ≡ some t)
joined db i ti t none e = cc
joined db i ti t (some a) e =
    let same = some-injective (i, a) (ti, t) e in (ap (λ p. p.0) same, ap (λ p. some p.1) same)

target_row-rows :
    (intent_id : String) (db : Db) (ti : Intent) (t : Agent)
    → target_row intent_id db ≡ some (ti, t)
    → (find (λ i. i.id == intent_id) db.intents ≡ some ti)
      × (find (λ a. a.id == ti.agent_id) db.agents ≡ some t)
unfolding target_row
target_row-rows intent_id db ti t e = go (find (λ i. i.id == intent_id) db.intents) refl e
  where
    go :
        (o : Option Intent)
        → find (λ i. i.id == intent_id) db.intents ≡ o
        → ◌≡◌ {A = Option (Intent × Agent)}
            (elim o [
              | none ↦ none
              | some i ↦ elim (find (λ a. a.id == i.agent_id) db.agents) [
                | none ↦ none
                | some a ↦ some (i, a)
              ]
            ])
            (some (ti, t))
        → (o ≡ some ti) × (find (λ a. a.id == ti.agent_id) db.agents ≡ some t)
    go none f k = cc
    go (some i) f k =
        let both = joined db i ti t (find (λ a. a.id == i.agent_id) db.agents) k in
        (ap some both.0, rw (← both.0) both.1)

Separates_lem :
    (a_id b_id : String) (b : Block)
    → Separates a_id b_id b
    → ((b.blocker_id == a_id && b.blocked_id == b_id)
        || (b.blocker_id == b_id && b.blocked_id == a_id))
      ≡ true
Separates_lem a_id b_id b (inl (p, q)) =
    ground (arith, (eq_iff b.blocker_id a_id).1 p, (eq_iff b.blocked_id b_id).1 q)
Separates_lem a_id b_id b (inr (p, q)) =
    ground (arith, (eq_iff b.blocker_id b_id).1 p, (eq_iff b.blocked_id a_id).1 q)

blocks_between-none :
    (a_id b_id : String) (db : Db)
    → blocks_between a_id b_id db ≡ []
    → All (λ b. ¬ Separates a_id b_id b) db.blocks
unfolding blocks_between
blocks_between-none a_id b_id db e =
    All-unselected (Separates a_id b_id) _ db.blocks (λ b h. Separates_lem a_id b_id b h)
      (rw e (omega arith))

-- What the handler has found is what stands in the database.
pub allowed-IsPermitted :
    (id : String) (agent : Agent) (body : ConnectionCreateRequest) (now : ℕ) (w : World)
    (r : ConnectionRequest)
    → IsAllowed id agent body now w r
    → IsPermitted id agent body now w.work r
unfolding load_target load_from_intent new_request count_pending_outbound count_requests_sent_since
allowed-IsPermitted id agent body now w r h =
    let aimed =
      target_row-rows body.target_intent_id w.work h.target_intent h.target (ok-injective h.aims) in
    let owned = ok-injective h.owns in
    let named = find_sound (λ i. i.id == body.target_intent_id) w.work.intents aimed.0 in
    let owner = find_sound (λ a. a.id == h.target_intent.agent_id) w.work.agents aimed.1 in
    let mine =
      find_sound (λ i. i.id == body.from_intent_id && i.agent_id == agent.id) w.work.intents
        owned in
    record {
      target_intent = h.target_intent;
      target = h.target;
      from_intent = h.from_intent;
      aims = (
        In-find _ w.work.intents aimed.0,
        (eq_iff h.target_intent.id body.target_intent_id).0 named,
      );
      owned =
          (In-find _ w.work.agents aimed.1, (eq_iff h.target.id h.target_intent.agent_id).0 owner);
      own = (
        In-find _ w.work.intents owned,
        (eq_iff h.from_intent.id body.from_intent_id).0 (ground (arith, mine)),
        (eq_iff h.from_intent.agent_id agent.id).0 (ground (arith, mine)),
      );
      target_active =
          (intent_status_eq.equals_iff h.target_intent.status IntentStatus.active).0
            h.target_active;
      from_active =
          (intent_status_eq.equals_iff h.from_intent.status IntentStatus.active).0 h.from_active;
      other = λ e. ground (arith, h.room.other, (eq_iff h.target.id agent.id).1 e);
      unblocked = blocks_between-none agent.id h.target.id w.work h.room.no_block;
      pending = h.room.pending;
      sent = h.room.sent;
      row = h.row;
    }
