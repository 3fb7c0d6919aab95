-- ===== src/Connections/Limit.antt =====
-- The bound on pending requests: `create_connection` of src/babeltower/routes/connections.py.
use babeltower.Prelude.{
  ℕ, ◌-◌, ◌≤◌, String, ◌≡◌, Option, none, some, false, List, [], ◌∷◌, inl, inr, Bool-cases, arith,
  ◌==◌, ◌!=◌, string_eq, count, count-append, leb,
}
use text.Mathlib.TextEquality.{eq_iff}
use babeltower.Models.{
  Db, Agent, Intent, Block, IntentStatus, request_status_eq, intent_status_eq, days,
}
use babeltower.World.{World}
use babeltower.Exec.{Result, commit, pure, ◌>>=◌, ◌>>◌, scalar_one_or_none, reply, begin, run}
use babeltower.Exec.Keeps.{Keeps, bind-Keeps, if-Keeps}
use babeltower.Moderation.{check_and_apply_soft_ban}
use babeltower.Moderation.Bans.{check_and_apply_soft_ban-store, check_and_apply_soft_ban-requests}
use babeltower.Connections.{
  ConnectionCreateRequest, is_pending_outbound, count_pending_outbound, count_requests_sent_since,
  blocks_between, is_some, new_request, add_request, create_connection_request, connect_intents,
  with_intents, create_connection, has_block_between, load_target, load_from_intent,
}

module _ (now : ℕ) where
  -- No agent has more than twenty requests that are pending and not past their deadline.
  abbrev pub IsWithinLimit : Db → Type 0
  IsWithinLimit db = (id : String) → count_pending_outbound id now db ≤ 20

  new_request-IsWithinLimit :
      (id from_id to_id : String) (body : ConnectionCreateRequest) (db : Db)
      → leb 20 (count_pending_outbound from_id now db) ≡ false
      → IsWithinLimit db
      → IsWithinLimit (add_request (new_request id from_id to_id body now) db)
  unfolding count_pending_outbound add_request new_request count
  new_request-IsWithinLimit id from_id to_id body db room h other =
      let r = new_request id from_id to_id body now in
      elim (Bool-cases (from_id == other)) [
        | inl t ↦
            let same = (eq_iff from_id other).0 t in
            ground (
              arith,
              count-append (is_pending_outbound other now) db.connection_requests (r ∷ []),
              h other,
              room,
              same,
            )
        | inr t ↦ ground (
          arith,
          count-append (is_pending_outbound other now) db.connection_requests (r ∷ []),
          h other,
          t,
        )
      ]

  abbrev WithinLimit : {A : Type 0} → Result A × World → Type 0
  WithinLimit = Keeps IsWithinLimit

  check-WithinLimit :
      (event_id agent_id : String) (w : World)
      → IsWithinLimit w.store
      → IsWithinLimit w.work
      → WithinLimit (check_and_apply_soft_ban event_id agent_id now w)
  unfolding count_pending_outbound
  check-WithinLimit event_id agent_id w g h = (
    rw (check_and_apply_soft_ban-store event_id agent_id now w) g,
    rw (check_and_apply_soft_ban-requests event_id agent_id now w) h,
  )

  rows-WithinLimit :
      (rows : List Block) (w : World)
      → IsWithinLimit w.store
      → IsWithinLimit w.work
      → WithinLimit ((do found ← scalar_one_or_none rows; pure (is_some found)) w)
  unfolding scalar_one_or_none
  rows-WithinLimit [] w g h = (g, h)
  rows-WithinLimit (x ∷ []) w g h = (g, h)
  rows-WithinLimit (x ∷ y ∷ rest) w g h = (g, h)

  module _ (id event_id : String) (agent : Agent) (body : ConnectionCreateRequest) where
    made-WithinLimit :
        (target : Agent) (w : World)
        → leb 20 (count_pending_outbound agent.id now w.work) ≡ false
        → IsWithinLimit w.work
        → WithinLimit (
            (do
              request ← create_connection_request id agent target body now
              check_and_apply_soft_ban event_id agent.id now
              commit
              pure (reply request))
              w)
    unfolding create_connection_request
    made-WithinLimit target w room h =
        let more = new_request-IsWithinLimit id agent.id target.id body w.work room h in
        bind-Keeps IsWithinLimit (check_and_apply_soft_ban event_id agent.id now)
          (λ _. commit >> pure (reply (new_request id agent.id target.id body now))) _
          (check-WithinLimit event_id agent.id _ more more) λ a v g k. (k, k)

    connect_intents-WithinLimit :
        (target : Agent) (w : World)
        → IsWithinLimit w.store
        → IsWithinLimit w.work
        → WithinLimit (connect_intents id event_id agent target body now w)
    unfolding connect_intents has_block_between
    connect_intents-WithinLimit target w g h =
        if-Keeps IsWithinLimit (target.id == agent.id) _ _ w (g, h)
          λ _.
            bind-Keeps IsWithinLimit (has_block_between agent.id target.id) _ w
              (rows-WithinLimit (blocks_between agent.id target.id w.work) w g h)
              λ blocked v x y.
                if-Keeps IsWithinLimit blocked _ _ v (x, y)
                  λ _.
                    if-Keeps IsWithinLimit (leb 20 (count_pending_outbound agent.id now v.work)) _ _
                      v (x, y)
                      λ room.
                        if-Keeps IsWithinLimit
                          (leb 50 (count_requests_sent_since agent.id (now - days 1) v.work)) _ _ v
                          (x, y) λ _. made-WithinLimit target v room y

    with_intents-WithinLimit :
        (o : Option (Intent × Agent)) (f : Option Intent) (w : World)
        → IsWithinLimit w.store
        → IsWithinLimit w.work
        → WithinLimit (with_intents id event_id agent body now o f w)
    unfolding with_intents
    with_intents-WithinLimit none f w g h = (g, h)
    with_intents-WithinLimit (some (ti, target)) none w g h =
        if-Keeps IsWithinLimit (ti.status != IntentStatus.active) _ _ w (g, h) λ _. (g, h)
    with_intents-WithinLimit (some (ti, target)) (some fi) w g h =
        if-Keeps IsWithinLimit (ti.status != IntentStatus.active) _ _ w (g, h)
          λ _.
            if-Keeps IsWithinLimit (fi.status != IntentStatus.active) _ _ w (g, h)
              λ _. connect_intents-WithinLimit target w g h

    -- Where no agent has more than twenty pending requests at the time of the call, none has after
    -- POST /connect, in the database that the call leaves, also where it fails.
    pub create_connection-IsWithinLimit :
        (w : World)
        → IsWithinLimit w.store
        → IsWithinLimit (run (create_connection id event_id agent body now) w).1.store
    unfolding create_connection load_target load_from_intent
    create_connection-IsWithinLimit w g = (with_intents-WithinLimit _ _ (begin w) g g).0
