-- ===== src/Search/Matching.antt =====
-- What a searcher asks for of a row, and that the WHERE of src/babeltower/routes/search.py is this.
use babeltower.Prelude.{
  ℕ, ◌≤◌, String, ◌≡◌, ◌≢◌, refl, Option, none, some, Bool, true, ◌⊎◌, inl, inr, List, [], ◌∷◌,
  ◌==◌, string_eq, arith, All, length, select, find, join_rows, Bool-cases, All-join_rows,
  All-select, column_is, ◌&&◌, ◌||◌, All-unselected, ap, sym, All-mono, In, In-join_rows,
  In-select-from,
}
use mathlib.Core.Option.{some-injective}
use text.Mathlib.TextEquality.{eq_iff}
use babeltower.Models.{Db, Agent, Intent, Block, IntentStatus, intent_status_eq}
use babeltower.World.{Value}
use babeltower.Connections.{with_agent, blocks_between}
use babeltower.Schemas.{SearchRequest}
use babeltower.Search.{distance_threshold, match_type_is, no_block, filters_match, is_candidate}

-- A block joins the two agents, in one direction or the other.
abbrev pub Joins : String → String → Block → Type 0
Joins a_id b_id b =
    ((b.blocker_id ≡ a_id) × (b.blocked_id ≡ b_id))
    ⊎ ((b.blocker_id ≡ b_id) × (b.blocked_id ≡ a_id))

module _ (str : Value → String) (field_text : String → String → Option String)
    (distance : String → String → ℕ) where
  abbrev pub KeepsFilters : List (String × Value) → Intent → Type 0
  KeepsFilters filters i = All (λ f. field_text i.filters f.0 ≡ some (str f.1)) filters

  -- What the searcher asked for, of an intent of the store and the agent that owns it.
  abbrev pub Matches : String → SearchRequest → String → Db → Intent × Agent → Type 0
  Matches agent_id body literal db (i, a) =
      (find (λ x. x.id == i.agent_id) db.agents ≡ some a)
      × (i.status ≡ IntentStatus.active)
      × (match_type_is body.query_intent.match_type i ≡ true)
      × (i.agent_id ≢ agent_id)
      × All (λ b. ¬ Joins agent_id i.agent_id b) db.blocks
      × KeepsFilters body.query_intent.filters i
      × (distance i.embedding literal ≤ distance_threshold)

  Joins-true :
      (a_id b_id : String) (b : Block)
      → Joins a_id b_id b
      → ((b.blocker_id == a_id && b.blocked_id == b_id)
          || (b.blocker_id == b_id && b.blocked_id == a_id))
        ≡ true
  Joins-true a_id b_id b (inl (e, f)) =
      ground (arith, (eq_iff b.blocker_id a_id).1 e, (eq_iff b.blocked_id b_id).1 f)
  Joins-true a_id b_id b (inr (e, f)) =
      ground (arith, (eq_iff b.blocker_id b_id).1 e, (eq_iff b.blocked_id a_id).1 f)

  true-Joins :
      (a_id b_id : String) (b : Block)
      → ((b.blocker_id == a_id && b.blocked_id == b_id)
          || (b.blocker_id == b_id && b.blocked_id == a_id))
        ≡ true
      → Joins a_id b_id b
  true-Joins a_id b_id b h = elim (Bool-cases (b.blocker_id == a_id && b.blocked_id == b_id)) [
    | inl e ↦ inl (
      (eq_iff b.blocker_id a_id).0 (ground (arith, e)),
      (eq_iff b.blocked_id b_id).0 (ground (arith, e)),
    )
    | inr e ↦ inr (
      (eq_iff b.blocker_id b_id).0 (ground (arith, e, h)),
      (eq_iff b.blocked_id a_id).0 (ground (arith, e, h)),
    )
  ]

  no_block-Joins :
      (a_id b_id : String) (db : Db)
      → no_block a_id b_id db ≡ true
      → All (λ b. ¬ Joins a_id b_id b) db.blocks
  unfolding no_block blocks_between
  no_block-Joins a_id b_id db h =
      All-unselected (Joins a_id b_id)
        (λ b.
          (b.blocker_id == a_id && b.blocked_id == b_id)
          || (b.blocker_id == b_id && b.blocked_id == a_id))
        db.blocks (Joins-true a_id b_id) (ground (arith, h))

  Joins-no_block :
      (a_id b_id : String) (db : Db)
      → All (λ b. ¬ Joins a_id b_id b) db.blocks
      → no_block a_id b_id db ≡ true
  unfolding no_block blocks_between select
  Joins-no_block a_id b_id db h =
      let none_left =
        unselected
          (λ b.
            (b.blocker_id == a_id && b.blocked_id == b_id)
            || (b.blocker_id == b_id && b.blocked_id == a_id))
          db.blocks (true-Joins a_id b_id) h in
      ground (arith, none_left)
    where
      unselected :
          (p : Block → Bool) (xs : List Block)
          → ((b : Block) → p b ≡ true → Joins a_id b_id b)
          → All (λ b. ¬ Joins a_id b_id b) xs
          → length (select p xs) ≤ 0
      unselected p [] t k = omega arith
      unselected p (b ∷ rest) t k = elim (Bool-cases (p b)) [
        | inl e ↦ absurd (k.0 (t b e))
        | inr e ↦ ground (arith, e, unselected p rest t k.1)
      ]

  column_is-some : (o : Option String) (v : String) → column_is o v ≡ true → o ≡ some v
  column_is-some none v h = ground arith
  column_is-some (some c) v h = ap some ((eq_iff c v).0 h)

  some-column_is : (o : Option String) (v : String) → o ≡ some v → column_is o v ≡ true
  some-column_is none v e = ground (arith, e)
  some-column_is (some c) v e = (eq_iff c v).1 (some-injective c v e)

  filters_match-KeepsFilters :
      (filters : List (String × Value)) (i : Intent)
      → filters_match str field_text distance filters i ≡ true
      → KeepsFilters filters i
  filters_match-KeepsFilters [] i h = tt
  filters_match-KeepsFilters ((key, value) ∷ rest) i h = (
    column_is-some (field_text i.filters key) (str value) (ground (arith, h)),
    filters_match-KeepsFilters rest i (ground (arith, h)),
  )

  KeepsFilters-filters_match :
      (filters : List (String × Value)) (i : Intent)
      → KeepsFilters filters i
      → filters_match str field_text distance filters i ≡ true
  KeepsFilters-filters_match [] i h = refl
  KeepsFilters-filters_match ((key, value) ∷ rest) i h = ground (
    arith,
    some-column_is (field_text i.filters key) (str value) h.0,
    KeepsFilters-filters_match rest i h.1,
  )

  paired :
      (i : Intent) (o : Option Agent) (row : Intent × Agent)
      → (elim o [ none ↦ none | some a ↦ some (i, a) ]) ≡ some row
      → (row.0 ≡ i) × (o ≡ some row.1)
  paired i none row e = absurd (ground (arith, e))
  paired i (some a) row e = (sym (ap (λ o. (from o).0) e), ap (λ o. some (from o).1) e)
    where
      from : Option (Intent × Agent) → Intent × Agent
      from none = row
      from (some x) = x

  with_agent-find :
      (db : Db) (i : Intent) (row : Intent × Agent)
      → with_agent db i ≡ some row
      → find (λ x. x.id == row.0.agent_id) db.agents ≡ some row.1
  with_agent-find db i row e =
      let both = paired i (find (λ x. x.id == i.agent_id) db.agents) row e in rw both.0 both.1

  is_candidate-Matches :
      (agent_id : String) (body : SearchRequest) (literal : String) (db : Db) (row : Intent × Agent)
      → find (λ x. x.id == row.0.agent_id) db.agents ≡ some row.1
      → is_candidate str field_text distance agent_id body literal db row ≡ true
      → Matches agent_id body literal db row
  unfolding is_candidate
  is_candidate-Matches agent_id body literal db (i, a) e h = (
    e,
    (intent_status_eq.equals_iff i.status IntentStatus.active).0 (ground (arith, h)),
    ground (arith, h),
    λ q. ground (arith, h, (eq_iff i.agent_id agent_id).1 q),
    no_block-Joins agent_id i.agent_id db (ground (arith, h)),
    filters_match-KeepsFilters body.query_intent.filters i (ground (arith, h)),
    ground (arith, h),
  )

  Matches-is_candidate :
      (agent_id : String) (body : SearchRequest) (literal : String) (db : Db) (row : Intent × Agent)
      → Matches agent_id body literal db row
      → is_candidate str field_text distance agent_id body literal db row ≡ true
  unfolding is_candidate
  Matches-is_candidate agent_id body literal db (i, a) (_, active, type, other, apart, kept, near) =
      let is_active = (intent_status_eq.equals_iff i.status IntentStatus.active).1 active in
      let is_apart = Joins-no_block agent_id i.agent_id db apart in
      let is_kept = KeepsFilters-filters_match body.query_intent.filters i kept in
      elim (Bool-cases (i.agent_id == agent_id)) [
        | inl e ↦ absurd (other ((eq_iff i.agent_id agent_id).0 e))
        | inr e ↦ ground (arith, is_active, type, e, is_apart, is_kept, near)
      ]

  -- A row of the store that matches is one that the WHERE keeps.
  pub matching-In :
      (agent_id : String) (body : SearchRequest) (literal : String) (db : Db) (row : Intent × Agent)
      → In row.0 db.intents
      → Matches agent_id body literal db row
      → In row (
          select
            (is_candidate str field_text distance agent_id body literal db)
            (join_rows (with_agent db) db.intents))
  matching-In agent_id body literal db (i, a) here h =
      let joined : with_agent db i ≡ some (i, a) = rw (with_agent, h.0) in
      In-select-from (is_candidate str field_text distance agent_id body literal db)
        (join_rows (with_agent db) db.intents)
        ((In-join_rows (with_agent db) db.intents).1 (i, here, joined))
        (Matches-is_candidate agent_id body literal db (i, a) h)

  pub matching-Matches :
      (agent_id : String) (body : SearchRequest) (literal : String) (db : Db)
      → All (Matches agent_id body literal db) (
          select
            (is_candidate str field_text distance agent_id body literal db)
            (join_rows (with_agent db) db.intents))
  matching-Matches agent_id body literal db =
      let rows = join_rows (with_agent db) db.intents in
      let joined =
        λ (row : Intent × Agent). find (λ x. x.id == row.0.agent_id) db.agents ≡ some row.1 in
      let p = is_candidate str field_text distance agent_id body literal db in
      All-mono (λ row. joined row × (p row ≡ true)) (Matches agent_id body literal db)
        (select p rows) (λ row h. is_candidate-Matches agent_id body literal db row h.0 h.1)
        (All-select joined p rows
          (All-join_rows joined (with_agent db) db.intents (with_agent-find db)))
