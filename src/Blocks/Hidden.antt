-- ===== src/Blocks/Hidden.antt =====
-- A block, src/babeltower/routes/blocks.py, and the searches of its two agents,
-- src/babeltower/routes/search.py.
use babeltower.Prelude.{
  ℕ, String, ◌≡◌, ◌≢◌, sym, subst, All-In, All-mono, Option, true, inl, inr, arith, All, string_eq,
}
use text.Mathlib.TextEquality.{eq_iff}
use babeltower.Models.{Db, Block, session_status_eq}
use babeltower.World.{Value}
use babeltower.Schemas.{SearchRequest}
use babeltower.Search.{candidate_rows}
use babeltower.Search.Matching.{Joins, Matches}
use babeltower.Search.Nearest.{candidate_rows-IsNearest}
use babeltower.Blocks.{is_block}
use babeltower.Blocks.Apart.{HasBlock}

HasBlock-Joins :
    (a_id b_id : String) (b : Block)
    → is_block a_id b_id b ≡ true
    → Joins a_id b_id b × Joins b_id a_id b
HasBlock-Joins a_id b_id b h =
    let from = (eq_iff b.blocker_id a_id).0 (ground (arith, h)) in
    let to = (eq_iff b.blocked_id b_id).0 (ground (arith, h)) in (inl (from, to), inr (from, to))

-- Where a block is committed, a search by either of the two agents gives no intent of the other.
pub candidate_rows-unblocked :
    (str : Value → String) (field_text : String → String → Option String)
    (distance : String → String → ℕ) (a_id b_id : String) (body : SearchRequest) (literal : String)
    (db : Db)
    → HasBlock a_id b_id db
    → All
        (λ row. row.0.agent_id ≢ b_id)
        (candidate_rows str field_text distance a_id body literal db)
      × All
          (λ row. row.0.agent_id ≢ a_id)
          (candidate_rows str field_text distance b_id body literal db)
candidate_rows-unblocked str field_text distance a_id b_id body literal db (b, i, t) =
    let joins = HasBlock-Joins a_id b_id b t in
    let rows = λ (id : String). candidate_rows str field_text distance id body literal db in
    let matching =
      λ (id : String). (candidate_rows-IsNearest str field_text distance id body literal db).1.0 in
    (
      All-mono (Matches str field_text distance a_id body literal db) (λ row. row.0.agent_id ≢ b_id)
          (rows a_id)
          (λ row m e.
            All-In _ db.blocks {x = b} m.4 i (subst (λ c. Joins a_id c b) (sym e) joins.0))
          (matching a_id),
      All-mono (Matches str field_text distance b_id body literal db) (λ row. row.0.agent_id ≢ a_id)
          (rows b_id)
          (λ row m e.
            All-In _ db.blocks {x = b} m.4 i (subst (λ c. Joins b_id c b) (sym e) joins.1))
          (matching b_id),
    )
