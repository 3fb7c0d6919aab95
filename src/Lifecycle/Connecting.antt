-- ===== src/Lifecycle/Connecting.antt =====
-- A new connection request keeps the lifecycle: `create_connection` of
-- src/babeltower/routes/connections.py.
use babeltower.Prelude.{
  ℕ, ◌-◌, String, refl, inl, Option, none, some, List, [], ◌∷◌, ◌==◌, ◌!=◌, string_eq, leb,
}
use babeltower.Models.{Db, Agent, Intent, IntentStatus, intent_status_eq, days}
use babeltower.World.{World}
use babeltower.Exec.{scalar_one_or_none}
use babeltower.Moderation.{check_and_apply_soft_ban}
use babeltower.Connections.{
  ConnectionCreateRequest, create_connection, load_target, load_from_intent,
  create_connection_request, has_block_between, blocks_between, connect_intents, with_intents,
  new_request, add_request, count_pending_outbound, count_requests_sent_since,
}
use babeltower.Lifecycle.Steps.{Steps, Steps-refl, Steps-trans, Steps-other, Steps-add_request}
use babeltower.Lifecycle.Sound.{Fits, After, After-stay, After-commit, After-bind, After-if_run}
use babeltower.Lifecycle.Bans.{check_and_apply_soft_ban-After}

add_request-Steps :
    (id from_id to_id : String) (body : ConnectionCreateRequest) (now : ℕ) (db : Db)
    → Steps db (add_request (new_request id from_id to_id body now) db)
unfolding add_request new_request
add_request-Steps id from_id to_id body now db =
    Steps-trans (Steps-add_request (new_request id from_id to_id body now) db (inl refl))
      (Steps-other refl refl)

create_connection_request-After :
    (id : String) (agent target_agent : Agent) (body : ConnectionCreateRequest) (now : ℕ)
    (w : World)
    → Fits w
    → After w (create_connection_request id agent target_agent body now w)
unfolding create_connection_request
create_connection_request-After id agent target_agent body now w f =
    After-commit _ refl f (add_request-Steps id agent.id target_agent.id body now w.work)

-- A query that may raise leaves the world as it is.
pub scalar-After :
    {A : Type 0} (rows : List A) (w : World) → Fits w → After w (scalar_one_or_none rows w)
unfolding scalar_one_or_none
scalar-After [] w f = After-stay _ f
scalar-After (x ∷ []) w f = After-stay _ f
scalar-After (x ∷ y ∷ rest) w f = After-stay _ f

has_block_between-After : (a b : String) (w : World) → Fits w → After w (has_block_between a b w)
unfolding has_block_between
has_block_between-After a b w f =
    After-bind (scalar_one_or_none (blocks_between a b w.work)) _ w (scalar-After _ w f)
      (λ o v g. After-stay _ g)

load_target-After : (id : String) (w : World) → Fits w → After w (load_target id w)
unfolding load_target
load_target-After id w f = After-stay _ f

load_from_intent-After :
    (id agent_id : String) (w : World) → Fits w → After w (load_from_intent id agent_id w)
unfolding load_from_intent
load_from_intent-After id agent_id w f = After-stay _ f

module _ (id event_id : String) (agent : Agent) (body : ConnectionCreateRequest) (now : ℕ) where
  connect_intents-After :
      (target_agent : Agent) (w : World)
      → Fits w
      → After w (connect_intents id event_id agent target_agent body now w)
  unfolding connect_intents
  connect_intents-After target_agent w f =
      After-if_run w w (target_agent.id == agent.id) _ _ (λ _. After-stay _ f)
        λ _.
          After-bind (has_block_between agent.id target_agent.id) _ w
            (has_block_between-After agent.id target_agent.id w f)
            λ blocked v g.
              After-if_run v v blocked _ _ (λ _. After-stay _ g)
                λ _.
                  After-if_run v v (leb 20 (count_pending_outbound agent.id now v.work)) _ _
                    (λ _. After-stay _ g)
                    λ _.
                      After-if_run v v
                        (leb 50 (count_requests_sent_since agent.id (now - days 1) v.work)) _ _
                        (λ _. After-stay _ g)
                        λ _.
                          After-bind (create_connection_request id agent target_agent body now) _ v
                            (create_connection_request-After id agent target_agent body now v g)
                            λ request u h.
                              After-bind (check_and_apply_soft_ban event_id agent.id now) _ u
                                (check_and_apply_soft_ban-After event_id agent.id now u h)
                                λ banned t k. After-commit _ refl k (Steps-refl t.work)

  with_intents-After :
      (target : Option (Intent × Agent)) (from_intent : Option Intent) (w : World)
      → Fits w
      → After w (with_intents id event_id agent body now target from_intent w)
  unfolding with_intents
  with_intents-After none from_intent w f = After-stay _ f
  with_intents-After (some (t, a)) none w f =
      After-if_run w w (t.status != IntentStatus.active) _ _ (λ _. After-stay _ f)
        (λ _. After-stay _ f)
  with_intents-After (some (t, a)) (some i) w f =
      After-if_run w w (t.status != IntentStatus.active) _ _ (λ _. After-stay _ f)
        λ _.
          After-if_run w w (i.status != IntentStatus.active) _ _ (λ _. After-stay _ f)
            (λ _. connect_intents-After a w f)

  pub create_connection-After :
      (w : World) → Fits w → After w (create_connection id event_id agent body now w)
  unfolding create_connection
  create_connection-After w f =
      After-bind (load_target body.target_intent_id) _ w (load_target-After _ w f) λ t v g.
        After-bind (load_from_intent body.from_intent_id agent.id) _ v
          (load_from_intent-After _ _ v g) (λ i u h. with_intents-After t i u h)
