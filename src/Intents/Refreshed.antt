-- ===== src/Intents/Refreshed.antt =====
-- Refreshing a dormant intent and the number of active ones: src/babeltower/routes/intents.py.
use babeltower.Prelude.{
  ℕ, suc, String, ◌≡◌, refl, some, Bool, true, false, ◌&&◌, List, [], ◌∷◌, inl, inr, ◌==◌,
  string_eq, find, count, update_row, Bool-cases, arith, ◌||◌,
}
use mathlib.Core.Option.{some-injective}
use text.Mathlib.TextEquality.{eq_iff}
use babeltower.Models.{Agent, Intent, IntentStatus, intent_status_eq}
use babeltower.World.{World}
use babeltower.Exec.{ok, run, reply}
use babeltower.Intents.{count_active_intents, is_active_of}
use babeltower.Intents.Owned.{refreshed, refresh_loaded, refresh_intent, get_owned_intent}

-- Changing the row that is found, from one that does not count to one that does.
count-update_row-suc :
    (q p : Intent → Bool) (f : Intent → Intent) (xs : List Intent) {x : Intent}
    → find p xs ≡ some x
    → q x ≡ false
    → q (f x) ≡ true
    → count q (update_row p f xs) ≡ suc (count q xs)
unfolding count find update_row
count-update_row-suc q p f [] e h k = absurd (ground (arith, e))
count-update_row-suc q p f (y ∷ ys) {x} e h k = elim (Bool-cases (p y)) [
  | inl t ↦
      let same : y ≡ x = some-injective y x (ground (arith, e, t)) in
      rw (t, same, h, k) (omega arith)
  | inr t ↦
      let rest = count-update_row-suc q p f ys {x = x} (ground (arith, e, t)) h k in
      ground (arith, t, rest)
]

-- POST /intents/{intent_id}/refresh of a dormant intent by its owner makes it active, so that the owner
-- has one active intent more, however many it had: the bound of ten that POST /intents keeps is not
-- looked at. The intent is the row with its id.
pub refresh_intent-Exceeds :
    (intent_id : String) (agent : Agent) (now : ℕ) (i : Intent) (w : World)
    → find (λ j. j.id == intent_id && j.agent_id == agent.id) w.store.intents ≡ some i
    → find (λ j. j.id == i.id) w.store.intents ≡ some i
    → i.agent_id ≡ agent.id
    → i.status ≡ IntentStatus.dormant
    → let left = run (refresh_intent intent_id agent now) w in
      (left.0 ≡ ok (reply (refreshed now i)))
      × (count_active_intents agent.id left.1.store ≡ suc (count_active_intents agent.id w.store))
unfolding refresh_intent get_owned_intent refresh_loaded count_active_intents
refresh_intent-Exceeds intent_id agent now i w e f own st =
    let mine = (eq_iff i.agent_id agent.id).1 own in
    let barred : (i.status == IntentStatus.expired
          || (i.status == IntentStatus.matched || i.status == IntentStatus.deleted))
        ≡ false =
      ground (arith, st) in
    rw (e, barred)
      (
        refl,
        count-update_row-suc (is_active_of agent.id) (λ j. j.id == i.id) (refreshed now)
            w.store.intents {x = i} f (ground (arith, st)) (ground (arith, mine, st)),
      )
