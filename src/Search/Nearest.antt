-- ===== src/Search/Nearest.antt =====
-- What a search of src/babeltower/routes/search.py promises, and that its query keeps it.
use babeltower.Prelude.{
  ℕ, ◌≤◌, ◌+◌, String, ◌≡◌, refl, Option, Bool, true, false, ◌⊎◌, List, [], map, string_eq, arith,
  All, count, length, select, sort_by, drop, join_rows, IsSorted, All-sort_by, All-take,
  count-sort_by, count-take-drop, drop-cases, length-take, sort_by-IsSorted, IsSorted-take,
  take_first, In, In-sort_by, In-take-drop, ◌∙◌,
}
use babeltower.Models.{Db, Agent, Intent, intent_status_eq}
use babeltower.World.{World, Json, Value}
use babeltower.Exec.{Result, ok}
use babeltower.Connections.{with_agent}
use babeltower.Schemas.{SearchRequest, SearchCandidate}
use babeltower.Search.Matching.{Matches, matching-Matches, matching-In}
use babeltower.Search.{
  embedding_literal, is_candidate, nearer, candidate, candidate_rows, search_intents,
}

module _ (str : Value → String) (field_text : String → String → Option String)
    (distance : String → String → ℕ) where
  nearer_total :
      (literal : String) (x y : Intent × Agent)
      → nearer str field_text distance literal x y ≡ false
      → nearer str field_text distance literal y x ≡ true
  nearer_total literal (i, _) (j, _) h = ground (arith, h)

  nearer_trans :
      (literal : String) (x y z : Intent × Agent)
      → nearer str field_text distance literal x y ≡ true
      → nearer str field_text distance literal y z ≡ true
      → nearer str field_text distance literal x z ≡ true
  nearer_trans literal (i, _) (j, _) (k, _) h g = ground (arith, h, g)

  -- The promise of a search: `rows` is an answer to it, `left` are the rows that it leaves out.
  abbrev pub IsNearest :
      String → SearchRequest → String → Db → List (Intent × Agent) → List (Intent × Agent) → Type 0
  IsNearest agent_id body literal db rows left =
      All (Matches str field_text distance agent_id body literal db) rows
      × IsSorted (nearer str field_text distance literal) rows
      × (length rows ≤ body.max_results)
      × All (λ x. All (λ y. nearer str field_text distance literal x y ≡ true) left) rows
      × ((left ≡ []) ⊎ (length rows ≡ body.max_results))
      × ((row : Intent × Agent)
          → In row.0 db.intents
          → Matches str field_text distance agent_id body literal db row
          → In row rows ⊎ In row left)
      × ((p : Intent × Agent → Bool)
          → count p rows + count p left
            ≡ count p (
                select (is_candidate str field_text distance agent_id body literal db)
                  (join_rows (with_agent db) db.intents)))

  pub candidate_rows-IsNearest :
      (agent_id : String) (body : SearchRequest) (literal : String) (db : Db)
      → (left : List (Intent × Agent)) × IsNearest agent_id body literal db
          (candidate_rows str field_text distance agent_id body literal db)
          left
  unfolding candidate_rows
  candidate_rows-IsNearest agent_id body literal db =
      let le = nearer str field_text distance literal in
      let matching =
        select (is_candidate str field_text distance agent_id body literal db)
          (join_rows (with_agent db) db.intents) in
      let sorted = sort_by le matching in
      let IsSorted-sorted =
        sort_by-IsSorted le (nearer_total literal) (nearer_trans literal) matching in
      (
        drop body.max_results sorted,
        (
          All-take (Matches str field_text distance agent_id body literal db) body.max_results
              sorted
              (All-sort_by (Matches str field_text distance agent_id body literal db) le matching
                (matching-Matches str field_text distance agent_id body literal db)),
          IsSorted-take le body.max_results sorted IsSorted-sorted,
          length-take body.max_results sorted,
          take_first le body.max_results sorted IsSorted-sorted,
          drop-cases body.max_results sorted,
          λ row here h. In-take-drop body.max_results sorted row (
              (In-sort_by le matching row).1
                (matching-In str field_text distance agent_id body literal db row here h)),
          λ p. count-take-drop p body.max_results sorted ∙ count-sort_by le p matching,
        ),
      )

  -- `p` is what a search returns and leaves.
  abbrev pub IsSearch :
      Agent → SearchRequest → Json → World → Result (List SearchCandidate) × World → Type 0
  IsSearch agent body embedding w p =
      let literal = embedding_literal embedding in
      (rows : List (Intent × Agent)) × (left : List (Intent × Agent)) × (p
        ≡ (ok (map (candidate str field_text distance literal) rows), w))
      × IsNearest agent.id body literal w.work rows left

  -- A search answers with the candidates of rows that match it, nearest first and at most
  -- `max_results` of them: each is an active intent of another agent, with no block between the
  -- two, that has the match type and the filters asked for and is no farther than the threshold.
  -- Every intent of the store that matches is among them or among the rows left out; those are no
  -- nearer than any that it gives, and there are none unless the limit is reached.
  pub search_intents-IsNearest :
      (agent : Agent) (body : SearchRequest) (embedding : Json) (w : World)
      → IsSearch agent body embedding w
          (search_intents str field_text distance agent body embedding w)
  unfolding search_intents
  search_intents-IsNearest agent body embedding w =
      let literal = embedding_literal embedding in
      let rest = candidate_rows-IsNearest agent.id body literal w.work in
      (candidate_rows str field_text distance agent.id body literal w.work, rest.0, refl, rest.1)
