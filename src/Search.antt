-- ===== src/Search.antt =====
-- src/babeltower/routes/search.py: the intents of other agents that are nearest to a query.
-- `str` is Python's, the text of a JSON value. Two parameters are PostgreSQL's: `field_text` is `->>`,
-- the text of a key in the JSON of an intent's filters, and `distance` is pgvector's `<=>` of an
-- embedding and a literal, in millionths. The query asks for a similarity, 1 less the distance, of at
-- least 0.7: a distance of at most 300,000 millionths. The similarity of an answer is in millionths.
pub mod Matching
pub mod Nearest
use babeltower.Prelude.{
  ℕ, ◌+◌, ◌-◌, String, ◌<>◌, Option, none, some, Bool, true, false, ◌&&◌, not, List, [], ◌∷◌, map,
  ◌==◌, ◌!=◌, string_eq, leb, select, length, column_is, sort_by, take, join_rows,
}
use babeltower.Models.{Db, Agent, Intent, Block, IntentStatus, intent_status_eq}
use babeltower.World.{World, Metrics, Json, Value}
use babeltower.Exec.{Exec, Result, ok, pure, query, on_metrics, ◌>>=◌, ◌>>◌}
use babeltower.Crypto.{CryptoLib}
use babeltower.Connections.{with_agent, blocks_between}
use babeltower.Embeddings.{comma_joined, iterated, embed_intent}
use babeltower.Schemas.{SearchRequest, SearchCandidate}

-- The greatest distance, 1 less SIMILARITY_THRESHOLD
abbrev pub distance_threshold : ℕ
distance_threshold = 300_000

-- `_embedding_literal`
unfoldable pub embedding_literal : Json → String
embedding_literal embedding = "[" <> comma_joined (iterated embedding) <> "]"

-- The optional clause on the match type
abbrev pub match_type_is : Option String → Intent → Bool
match_type_is none i = true
match_type_is (some m) i = i.match_type == m

-- `NOT EXISTS (SELECT 1 FROM blocks …)`
unfoldable pub no_block : String → String → Db → Bool
unfolding blocks_between
no_block a_id b_id db = leb (length (blocks_between a_id b_id db)) 0

module _ (str : Value → String) (field_text : String → String → Option String)
    (distance : String → String → ℕ) where
  -- One clause for each filter
  abbrev pub filters_match : List (String × Value) → Intent → Bool
  filters_match [] i = true
  filters_match ((key, value) ∷ rest) i =
      column_is (field_text i.filters key) (str value) && filters_match rest i

  -- WHERE
  unfoldable pub is_candidate : String → SearchRequest → String → Db → Intent × Agent → Bool
  unfolding no_block
  is_candidate agent_id body literal db (i, a) =
      i.status == IntentStatus.active
      && (match_type_is body.query_intent.match_type i
          && (i.agent_id != agent_id
              && (no_block agent_id i.agent_id db
                  && (filters_match body.query_intent.filters i
                      && leb (distance i.embedding literal) distance_threshold))))

  -- ORDER BY
  abbrev pub nearer : String → Intent × Agent → Intent × Agent → Bool
  nearer literal (i, _) (j, _) = leb (distance i.embedding literal) (distance j.embedding literal)

  abbrev pub candidate : String → Intent × Agent → SearchCandidate
  candidate literal (i, a) = record {
    intent_id = i.id;
    agent_pubkey = a.pubkey;
    match_type = i.match_type;
    seeking = i.seeking;
    offering = i.offering;
    constraints = i.constraints;
    filters = i.filters;
    similarity = 1_000_000 - distance i.embedding literal;
    agent_status = a.status;
  }

  -- The rows that the query gives
  unfoldable pub candidate_rows : String → SearchRequest → String → Db → List (Intent × Agent)
  unfolding is_candidate join_rows select sort_by take
  candidate_rows agent_id body literal db = take body.max_results (
      sort_by (nearer literal)
        (select (is_candidate agent_id body literal db) (join_rows (with_agent db) db.intents)))

  unfoldable pub search_intents : Agent → SearchRequest → Json → Exec (List SearchCandidate)
  unfolding candidate_rows embedding_literal
  search_intents agent body query_embedding = do
    let literal = embedding_literal query_embedding
    rows ← query (candidate_rows agent.id body literal)
    pure (map (candidate literal) rows)

  abbrev inc_searches : Metrics → Metrics
  inc_searches m = record m { searches_total = m.searches_total + 1 }

  -- POST /search
  unfoldable pub search :
      CryptoLib
      → (String → String → ℕ → Result (List String))
      → Agent
      → SearchRequest
      → ℕ
      → Exec (List SearchCandidate)
  unfolding embed_intent
  search lib voyage agent body now = do
    query_embedding ←
        embed_intent lib voyage body.query_intent.seeking body.query_intent.offering
          body.query_intent.constraints "query" now
    candidates ← search_intents agent body query_embedding
    on_metrics inc_searches
    pure candidates
