-- ===== src/Intents/Limit.antt =====
-- The bound on active intents: `create_intent` of src/babeltower/routes/intents.py.
use babeltower.Prelude.{
  ℕ, ◌-◌, ◌≤◌, String, ◌≡◌, Bool, false, List, [], ◌∷◌, inl, inr, Bool-cases, arith, ◌==◌,
  string_eq, count, count-append, leb,
}
use babeltower.Models.{Db, Agent, Intent, days}
use text.Mathlib.TextEquality.{eq_iff}
use babeltower.World.{World, Json}
use babeltower.Exec.{Exec, Result, ok, err, continue, begin, run, commit, pure, ◌>>◌}
use babeltower.Crypto.{CryptoLib}
use babeltower.Embeddings.{vector_text, embed_intent}
use babeltower.Embeddings.Retry.{LeavesDb, embed_intent-LeavesDb}
use babeltower.Moderation.{Regex, count_intents_created_since, check_and_apply_soft_ban}
use babeltower.Moderation.Bans.{check_and_apply_soft_ban-active, check_and_apply_soft_ban-store}
use babeltower.Intents.{
  IntentCreateRequest, count_active_intents, is_active_of, is_valid_match_type, new_intent,
  add_intent, persist_intent, count_created_intent, Created, created, store_intent, limit_intents,
  scanned, create_intent,
}

-- No agent has more than ten active intents.
abbrev pub IsLimited : Db → Type 0
IsLimited db = (id : String) → count_active_intents id db ≤ 10

new_intent-IsLimited :
    (id agent_id : String) (body : IntentCreateRequest) (embedding : String) (now : ℕ) (db : Db)
    → leb 10 (count_active_intents agent_id db) ≡ false
    → IsLimited db
    → IsLimited (add_intent (new_intent id agent_id body embedding now) db)
unfolding count_active_intents add_intent new_intent count
new_intent-IsLimited id agent_id body embedding now db room h other =
    let i = new_intent id agent_id body embedding now in
    elim (Bool-cases (agent_id == other)) [
      | inl t ↦
          let same = (eq_iff agent_id other).0 t in
          ground (arith, count-append (is_active_of other) db.intents (i ∷ []), h other, room, same)
      | inr t ↦ ground (arith, count-append (is_active_of other) db.intents (i ∷ []), h other, t)
    ]

check-IsLimited :
    (event_id agent_id : String) (now : ℕ) (w : World)
    → IsLimited w.work
    → IsLimited (check_and_apply_soft_ban event_id agent_id now w).1.work
check-IsLimited event_id agent_id now w h other =
    omega (arith, h other, check_and_apply_soft_ban-active other event_id agent_id now w)

-- The database as it is committed and as the transaction sees it.
abbrev Limited : {A : Type 0} → Result A × World → Type 0
Limited p = IsLimited p.1.store × IsLimited p.1.work

check-Limited :
    (event_id agent_id : String) (now : ℕ) (k : Exec Created) (w : World)
    → IsLimited w.store
    → IsLimited w.work
    → ((u : World) → IsLimited u.store → IsLimited u.work → Limited (k u))
    → Limited (
        continue
          (check_and_apply_soft_ban event_id agent_id now w).0
          (λ _. k)
          (check_and_apply_soft_ban event_id agent_id now w).1)
check-Limited event_id agent_id now k w g h f =
    go (check_and_apply_soft_ban event_id agent_id now w)
      (rw (check_and_apply_soft_ban-store event_id agent_id now w) g)
      (check-IsLimited event_id agent_id now w h)
  where
    go :
        (p : Result Bool × World)
        → IsLimited p.1.store
        → IsLimited p.1.work
        → Limited (continue p.0 (λ _. k) p.1)
    go (ok b, v) x y = f v x y
    go (err e, v) x y = (x, y)

module _ (re : Regex) (lib : CryptoLib) (voyage : String → String → ℕ → Result (List String))
    (id event_id : String) (agent : Agent) (body : IntentCreateRequest) (now : ℕ) where
  -- The handler once the intent is there.
  abbrev stored : Intent → Exec Created
  stored intent =
      persist_intent intent
      >> (check_and_apply_soft_ban event_id agent.id now
          >> (commit >> (count_created_intent >> pure (created intent))))

  stored-Limited :
      (embedding : String) (w : World)
      → leb 10 (count_active_intents agent.id w.work) ≡ false
      → IsLimited w.work
      → Limited (stored (new_intent id agent.id body embedding now) w)
  unfolding persist_intent count_created_intent
  stored-Limited embedding w room h =
      let more = new_intent-IsLimited id agent.id body embedding now w.work room h in
      check-Limited event_id agent.id now _ _ more more λ u x y. (y, y)

  store_intent-Limited :
      (w : World)
      → leb 10 (count_active_intents agent.id w.work) ≡ false
      → IsLimited w.store
      → IsLimited w.work
      → Limited (store_intent re lib voyage id event_id agent body now w)
  unfolding store_intent
  store_intent-Limited w room g h =
      go (embed_intent lib voyage body.seeking body.offering body.constraints "document" now w) (
        embed_intent-LeavesDb lib voyage body.seeking body.offering body.constraints "document" now
          w)
    where
      go :
          (p : Result Json × World)
          → LeavesDb w p
          → Limited
              (continue p.0 (λ e. stored (new_intent id agent.id body (vector_text e) now)) p.1)
      go (err e, v) s = (rw s.0 g, rw s.1 h)
      go (ok e, v) s = stored-Limited (vector_text e) v (rw s.1 room) (rw s.1 h)

  limit_intents-Limited :
      (w : World)
      → IsLimited w.store
      → IsLimited w.work
      → Limited (limit_intents re lib voyage id event_id agent body now w)
  unfolding limit_intents
  limit_intents-Limited w g h = elim (Bool-cases (leb 10 (count_active_intents agent.id w.work))) [
    | inl t ↦ rw t (g, h)
    | inr t ↦
        rw t
          (elim (Bool-cases (leb 30 (count_intents_created_since agent.id (now - days 1) w.work))) [
            | inl u ↦ rw u (g, h)
            | inr u ↦ rw u (store_intent-Limited w t g h)
          ])
  ]

  scanned-Limited :
      (vs : List String) (w : World)
      → IsLimited w.store
      → IsLimited w.work
      → Limited (scanned re lib voyage id event_id agent body now vs w)
  unfolding scanned
  scanned-Limited [] w g h = limit_intents-Limited w g h
  scanned-Limited (v ∷ vs) w g h = (g, h)

  -- Where no agent has more than ten active intents, none has after a request to create one, in the
  -- database that the request leaves: the committed rows, also where the request fails.
  pub create_intent-IsLimited :
      (w : World)
      → IsLimited w.store
      → IsLimited (run (create_intent re lib voyage id event_id agent body now) w).1.store
  unfolding create_intent
  create_intent-IsLimited w g = elim (Bool-cases (is_valid_match_type body.match_type)) [
    | inl t ↦ rw t (scanned-Limited _ (begin w) g g).0
    | inr t ↦ rw t g
  ]
