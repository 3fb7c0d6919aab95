-- ===== src/Lifecycle/Posting.antt =====
-- The calls on intents leave sessions and requests alone: src/babeltower/routes/intents.py.
use babeltower.Prelude.{
  ℕ, ◌-◌, String, ◌<>◌, refl, Option, none, some, ◌||◌, ◌&&◌, List, [], ◌∷◌, ◌==◌, string_eq, find,
  leb,
}
use babeltower.Models.{Agent, Intent, IntentStatus, intent_status_eq, days}
use babeltower.World.{World}
use babeltower.Exec.{commit, pure, ◌>>◌}
use babeltower.Moderation.{
  Regex, scan_intent_text, check_and_apply_soft_ban, count_intents_created_since,
}
use babeltower.Intents.{
  IntentCreateRequest, created, new_intent, persist_intent, count_active_intents,
  count_created_intent, is_valid_match_type, store_intent, limit_intents, scanned, create_intent,
}
use babeltower.Intents.Owned.{
  delete_loaded, delete_intent, refresh_loaded, refresh_intent, get_owned_intent,
}
use babeltower.Lifecycle.Steps.{Steps-other}
use babeltower.Lifecycle.Sound.{
  Fits, After, After-stay, After-bind, After-if_run, After-commit, After-committed,
}
use babeltower.Lifecycle.Silent.{After-Silent, Silent}
use babeltower.Exec.{Result}
use babeltower.Crypto.{CryptoLib}
use babeltower.Embeddings.{vector_text, embed_intent}
use babeltower.Lifecycle.Polling.{embed_intent-Silent}
use babeltower.Lifecycle.Bans.{check_and_apply_soft_ban-After}

persist_intent-After : (i : Intent) (w : World) → Fits w → After w (persist_intent i w)
unfolding persist_intent
persist_intent-After i w f = After-commit _ refl f (Steps-other refl refl)

count_created_intent-Silent : (w : World) → Silent w (count_created_intent w)
unfolding count_created_intent
count_created_intent-Silent w = record { same = record { store = refl; work = refl } }

module _ (re : Regex) (lib : CryptoLib) (voyage : String → String → ℕ → Result (List String))
    (id event_id : String) (agent : Agent) (body : IntentCreateRequest) (now : ℕ) where
  -- The handler once the intent is there.
  stored-After :
      (intent : Intent) (w : World)
      → Fits w
      → After w (
          (persist_intent intent
              >> (check_and_apply_soft_ban event_id agent.id now
                  >> (commit >> (count_created_intent >> pure (created intent)))))
            w)
  stored-After intent w f =
      After-bind (persist_intent intent) _ w (persist_intent-After intent w f) λ a u g.
        After-bind (check_and_apply_soft_ban event_id agent.id now)
          (λ _. commit >> (count_created_intent >> pure (created intent))) u
          (check_and_apply_soft_ban-After event_id agent.id now u g)
          λ b t h. After-committed _ h λ k.
            After-bind count_created_intent _ _ (After-Silent _ (count_created_intent-Silent _) k)
              (λ c s l. After-stay _ l)

  store_intent-After :
      (w : World) → Fits w → After w (store_intent re lib voyage id event_id agent body now w)
  unfolding store_intent
  store_intent-After w f =
      After-bind
        (embed_intent lib voyage body.seeking body.offering body.constraints "document" now) _ w
        (After-Silent _
          (embed_intent-Silent lib voyage body.seeking body.offering body.constraints "document" now
            w)
          f)
        λ e v g. stored-After (new_intent id agent.id body (vector_text e) now) v g

  limit_intents-After :
      (w : World) → Fits w → After w (limit_intents re lib voyage id event_id agent body now w)
  unfolding limit_intents
  limit_intents-After w f =
      After-if_run w w (leb 10 (count_active_intents agent.id w.work)) _ _ (λ _. After-stay _ f)
        λ _.
          After-if_run w w (leb 30 (count_intents_created_since agent.id (now - days 1) w.work)) _ _
            (λ _. After-stay _ f) (λ _. store_intent-After w f)

  scanned-After :
      (vs : List String) (w : World)
      → Fits w
      → After w (scanned re lib voyage id event_id agent body now vs w)
  unfolding scanned
  scanned-After [] w f = limit_intents-After w f
  scanned-After (v ∷ vs) w f = After-stay _ f

  pub create_intent-After :
      (w : World) → Fits w → After w (create_intent re lib voyage id event_id agent body now w)
  unfolding create_intent
  create_intent-After w f =
      After-if_run w w (is_valid_match_type body.match_type) _ _
        (λ _.
          scanned-After
            (scan_intent_text re
              (body.seeking <> "\n" <> body.offering <> "\n" <> body.constraints))
            w f)
        (λ _. After-stay _ f)

delete_loaded-After : (o : Option Intent) (w : World) → Fits w → After w (delete_loaded o w)
unfolding delete_loaded
delete_loaded-After none w f = After-stay _ f
delete_loaded-After (some i) w f = After-commit _ refl f (Steps-other refl refl)

pub delete_intent-After :
    (id : String) (agent : Agent) (w : World) → Fits w → After w (delete_intent id agent w)
unfolding delete_intent get_owned_intent
delete_intent-After id agent w f =
    delete_loaded-After (find (λ i. i.id == id && i.agent_id == agent.id) w.work.intents) w f

refresh_loaded-After :
    (now : ℕ) (o : Option Intent) (w : World) → Fits w → After w (refresh_loaded now o w)
unfolding refresh_loaded
refresh_loaded-After now none w f = After-stay _ f
refresh_loaded-After now (some i) w f =
    After-if_run w w
      (i.status == IntentStatus.expired
        || (i.status == IntentStatus.matched || i.status == IntentStatus.deleted))
      _ _ (λ _. After-stay _ f) (λ _. After-commit _ refl f (Steps-other refl refl))

pub refresh_intent-After :
    (id : String) (agent : Agent) (now : ℕ) (w : World)
    → Fits w
    → After w (refresh_intent id agent now w)
unfolding refresh_intent get_owned_intent
refresh_intent-After id agent now w f =
    refresh_loaded-After now (find (λ i. i.id == id && i.agent_id == agent.id) w.work.intents) w f
