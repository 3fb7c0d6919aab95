-- ===== src/Examples/Clients.antt =====
-- The theorems on registration, embeddings, search, inbox, ids and bodies at concrete inputs.
use babeltower.Prelude.{
  ℕ, ◌+◌, ◌≤◌, String, List, [], ◌∷◌, ◌≡◌, refl, some, none, true, arith, inl, inr, count, find,
  ◌==◌, nat_eq, string_eq, Bool-cases, lookup, In,
}
use text.Mathlib.TextEquality.{eq_iff}
use babeltower.Models.{
  days, minutes, ConnectionRequest, RequestStatus, Agent, AgentStatus, IntentStatus,
}
use babeltower.World.{World, Value, Json}
use babeltower.Exec.{Result, ok, err, runtime_error, run}
use babeltower.Crypto.{verify}
use babeltower.GithubOauth.{exchange_code, get_user_id}
use babeltower.Register.{count_active_agents_for_github, has_pubkey}
use babeltower.Register.Routes.{oauth_callback}
use babeltower.Register.Cap.{IsCapped, oauth_callback-IsCapped}
use babeltower.Register.Complete.{Registers, registration-IsComplete, registration-Readmits}
use babeltower.Embeddings.{
  embed_intent, intent_embedding_text, cache_key, cached_in, cache_get, cache_set, with_cached,
  attempts, attempt, or_again,
}
use babeltower.Embeddings.Retry.{chosen, embed_intent-chosen}
use babeltower.Embeddings.Cache.{embed_intent_again}
use babeltower.Redis.{get_live, redis_setex}
use babeltower.Schemas.{SearchRequest, InboxResponse, accepts_intent}
use babeltower.Schemas.Lengths.{accepts_intent-lengths}
use babeltower.Search.{search_intents}
use babeltower.Search.Nearest.{IsSearch, search_intents-IsNearest}
use babeltower.Connections.Respond.{accept_connection}
use babeltower.Inbox.{get_inbox}
use babeltower.Inbox.Accepted.{shown, accept_connection-IsShown}
use babeltower.Inbox.Presence.{
  IsAwake, polled_and_maintained, get_inbox-wakes, get_inbox-WakesBanned,
}
use babeltower.Ids.{encode_base32, new_id}
use babeltower.Ids.RoundTrip.{decode_base32, decode_base32-encode_base32}
use babeltower.Ids.Order.{sorts_before, new_id_mono}
use babeltower.Intents.{char_count, new_intent}
use babeltower.Meta.{server_info}
use babeltower.Examples.{
  small_db, small_world, alice, bob, plain_lib, github, server_settings, voyage, zeros, intent_body,
  an_intent,
}

small_db-IsCapped : IsCapped small_db
unfolding count_active_agents_for_github count
small_db-IsCapped = record {
  capped = λ g. ground arith;
  unique = λ k. elim (Bool-cases ("key-a" == k)) [
    | inl t ↦ rw (← (eq_iff "key-a" k).0 t) (omega arith)
    | inr t ↦ rw t (ground arith)
  ];
}

-- A registration that waits for its callback.
abbrev registering_world : World
registering_world = record small_world {
  redis = some (
      (
        "regtok:token",
        record {
          value = Json.dict (("agent_pubkey", Value.text "key-c") ∷ []);
          expires_at = days 11;
        },
      )
      ∷ []);
}

oauth_callback-IsCapped_example :
    IsCapped
      (run
        (oauth_callback github server_settings "c" "code" "token" (days 10))
        registering_world).1.store
oauth_callback-IsCapped_example =
    oauth_callback-IsCapped github server_settings "c" "code" "token" (days 10) registering_world
      small_db-IsCapped

registration-IsComplete_example :
    Registers plain_lib github server_settings "token" "key-c" "nonce" "signature"
      (days 10)
      "c"
      "code"
      (days 10)
      (days 10)
      9
      small_world
unfolding verify exchange_code get_user_id lookup count_active_agents_for_github has_pubkey count
registration-IsComplete_example =
    registration-IsComplete plain_lib github server_settings "token" "key-c" "nonce" "signature"
      (days 10) "c" "code" (days 10) (days 10) 9 small_world []
      (λ e b. ground (arith, b), (λ e b. ground (arith, b), tt)) refl refl refl (omega arith) refl
      refl refl refl refl (omega arith)

-- An agent of the same GitHub user is hard-banned.
abbrev banned_agent : Agent
banned_agent = record alice {
  id = "h";
  pubkey = "key-h";
  github_user_id = some 9;
  status = AgentStatus.hard_banned;
}

abbrev banned_world : World
banned_world = record small_world { store = record small_db { agents = banned_agent ∷ [] } }

registration-Readmits_example :
    Registers plain_lib github server_settings "token" "key-c" "nonce" "signature"
      (days 10)
      "c"
      "code"
      (days 10)
      (days 10)
      9
      banned_world
unfolding verify exchange_code get_user_id lookup count_active_agents_for_github has_pubkey count
registration-Readmits_example =
    registration-Readmits plain_lib github server_settings "token" "key-c" "nonce" "signature"
      (days 10) "c" "code" (days 10) (days 10) 9 banned_world banned_agent [] (inl refl) refl refl
      refl refl refl (omega arith) refl refl refl refl refl (omega arith)

embed_intent-chosen_example :
    embed_intent plain_lib voyage "a" "b" "c" "query" (days 10) small_world ≡ (
      let text = intent_embedding_text "a" "b" "c" in
      let key = cache_key plain_lib text "query" in
      chosen plain_lib voyage key text "query"
        (days 10)
        (cached_in key (days 10) small_world.redis)
        small_world)
embed_intent-chosen_example =
    embed_intent-chosen plain_lib voyage "a" "b" "c" "query" (days 10) small_world

-- A service that has no answer.
abbrev broken : String → String → ℕ → Result (List String)
broken text input_type n = err runtime_error

embed_intent_again_example :
    embed_intent plain_lib broken "a" "b" "c" "query"
      (days 10 + 1)
      (embed_intent plain_lib voyage "a" "b" "c" "query" (days 10) small_world).1
    ≡ (
      ok (Json.numbers (zeros 1024)),
      (embed_intent plain_lib voyage "a" "b" "c" "query" (days 10) small_world).1,
    )
unfolding embed_intent get_live lookup cache_get with_cached attempts attempt or_again cache_set
    redis_setex
embed_intent_again_example =
    embed_intent_again plain_lib voyage broken "a" "b" "c" "query" (days 10) (days 10 + 1)
      small_world [] (Json.numbers (zeros 1024)) refl refl refl (omega arith)

abbrev search_body : SearchRequest
search_body = record {
  query_intent = record {
    match_type = some "cofounder";
    seeking = "a company";
    offering = "a cofounder";
    constraints = "";
    filters = [];
  };
  max_results = 1;
}

abbrev any_distance : String → String → ℕ
any_distance embedding literal = 100_000

search_intents-IsNearest_example :
    IsSearch
      (λ v. "")
      (λ filters key. none)
      any_distance
      alice
      search_body
      (Json.numbers ("1" ∷ []))
      small_world
      (search_intents
        (λ v. "")
        (λ filters key. none)
        any_distance
        alice
        search_body
        (Json.numbers ("1" ∷ []))
        small_world)
search_intents-IsNearest_example =
    search_intents-IsNearest (λ v. "") (λ filters key. none) any_distance alice search_body
      (Json.numbers ("1" ∷ [])) small_world

-- Alice asks Bob.
abbrev asked : ConnectionRequest
asked = record {
  id = "q";
  from_agent_id = "a";
  to_agent_id = "b";
  target_intent_id = "j";
  from_intent_id = "i";
  opening_message = none;
  status = RequestStatus.pending;
  created_at = days 9;
  expires_at = days 12;
  responded_at = none;
  rejection_reason = none;
}

abbrev asked_world : World
asked_world = record small_world {
  store = record small_db { connection_requests = asked ∷ [] };
  work = record small_db { connection_requests = asked ∷ [] };
}

accept_connection-IsShown_example :
    (inbox : InboxResponse) × ((run
        (get_inbox alice (days 11))
        (run (accept_connection "u" "q" bob (days 10)) asked_world).1).0
      ≡ ok inbox)
    × In (shown asked "u" (days 10) "a" alice bob) inbox.accepted_sessions_awaiting_join
unfolding find
accept_connection-IsShown_example =
    accept_connection-IsShown "u" "q" bob alice asked (days 10) (days 11) asked_world refl refl refl
      (omega arith) refl refl (omega arith) refl

get_inbox-wakes_example :
    IsAwake "b"
      (days 10 + minutes 1)
      small_world
      (polled_and_maintained bob (days 10) (days 10 + minutes 1) small_world)
unfolding find
get_inbox-wakes_example =
    get_inbox-wakes bob (days 10) (days 10 + minutes 1) small_world {row = bob} refl refl
      (omega arith)

-- Bob is soft-banned, and his intent dormant.
abbrev quiet_bob : Agent
quiet_bob = record bob { status = AgentStatus.soft_banned; soft_ban_lifts_at = some (days 12) }

abbrev quiet_world : World
quiet_world = record small_world {
  store = record small_db {
    agents = quiet_bob ∷ [];
    intents = record (an_intent "j" "b") { status = IntentStatus.dormant } ∷ [];
  };
}

get_inbox-WakesBanned_example :
    let db = polled_and_maintained quiet_bob (days 10) (days 10 + minutes 1) quiet_world in
    (find (λ (a : Agent). a.id == "b") db.agents
      ≡ some (record quiet_bob { last_seen_at = some (days 10) }))
    × (quiet_bob.status ≡ AgentStatus.soft_banned)
    × IsAwake "b" (days 10 + minutes 1) quiet_world db
unfolding find
get_inbox-WakesBanned_example =
    get_inbox-WakesBanned quiet_bob (days 10) (days 10 + minutes 1) (days 12) quiet_world refl refl
      refl (omega arith) (omega arith)

decode_base32-encode_base32_example :
    decode_base32 (encode_base32 1_700_000_000_000 10) ≡ 1_700_000_000_000
decode_base32-encode_base32_example = decode_base32-encode_base32 1_700_000_000_000 10 (omega arith)

new_id_mono_example :
    sorts_before
      (new_id "agt" 1_700_000_000_000_000 (31 ∷ []))
      (new_id "agt" 1_700_000_000_001_000 (0 ∷ []))
    ≡ true
new_id_mono_example =
    new_id_mono "agt" 1_700_000_000_000_000 1_700_000_000_001_000 (31 ∷ []) (0 ∷ []) (omega arith)
      (omega arith)

accepts_intent-lengths_example :
    (char_count intent_body.seeking
        + char_count intent_body.offering
        + char_count intent_body.constraints
      ≤ (server_info "0.1").max_intent_chars)
    × (days 10 + days 1 ≤ (new_intent "k" "a" intent_body "" (days 10)).expires_at)
    × ((new_intent "k" "a" intent_body "" (days 10)).expires_at ≤ days 10 + days 90)
unfolding accepts_intent char_count
accepts_intent-lengths_example = accepts_intent-lengths "0.1" "k" "a" "" intent_body (days 10) refl
