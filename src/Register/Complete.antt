-- ===== src/Register/Complete.antt =====
-- A registration from its start to the state that the client polls.
use babeltower.Prelude.{
  ℕ, ◌+◌, ◌<◌, String, ◌≡◌, refl, none, some, true, false, List, [], ◌∷◌, ◌++◌, ◌≢◌, All, In, leb,
  lookup, insert,
}
use babeltower.Models.{Agent, AgentStatus, seconds}
use babeltower.World.{World, Object, Value, Json, Entry}
use babeltower.Exec.{ok, reply, run, begin}
use babeltower.Crypto.{CryptoLib, verify}
use babeltower.Redis.{get_redis, redis_get, redis_setex, get_live, set_live}
use babeltower.GithubOauth.{HttpClient, Settings, build_oauth_url, exchange_code, get_user_id}
use babeltower.Register.{
  registration_ttl, redis_key, whole_seconds, count_active_agents_for_github, new_agent, add_agent,
  has_pubkey, create_registered_agent, store_state, updated, pending_state, complete_changes,
  RegistrationInit, status_of, complete_status,
}
use babeltower.Register.Routes.{
  with_nonce, init_registration, github_user, register_agent, callback_stored, oauth_callback,
  status_stored, registration_status,
}
use babeltower.Embeddings.Cache.{get_live-set_live}

-- The state of a registration that is complete.
abbrev pub completed : String → String → ℕ → ℕ → ℕ → Json
completed token pubkey github_user_id start now =
    Json.dict (updated (pending_state token pubkey start) (complete_changes github_user_id now))

-- Redis with a state of the registration.
abbrev pub with_state : String → Json → ℕ → List (String × Entry) → List (String × Entry)
with_state token state now = set_live (redis_key token) registration_ttl state now

-- The world with an agent more, committed.
abbrev pub registered : Agent → List (String × Entry) → World → World
registered a entries w = record w {
  store = add_agent a w.work;
  work = add_agent a w.work;
  redis = some entries;
}

module _ (lib : CryptoLib) (client : HttpClient) (settings : Settings)
    (token pubkey nonce signature : String) (start : ℕ) where
  abbrev pub started : RegistrationInit
  started = record {
    registration_token = token;
    github_oauth_url = build_oauth_url client settings token;
    expires_in = registration_ttl;
  }

  init_registration-started :
      (w : World) (entries : List (String × Entry)) {bytes : List ℕ}
      → w.redis ≡ some entries
      → lib.b64decode nonce ≡ some bytes
      → verify lib pubkey bytes signature ≡ true
      → init_registration lib client settings token pubkey nonce signature start w ≡ (
        ok started,
        record w {
          redis =
              some (with_state token (Json.dict (pending_state token pubkey start)) start entries);
        },
      )
  unfolding init_registration get_redis with_nonce redis_setex
  init_registration-started w entries r n v = rw (n, v, r) refl

  oauth_callback-registered :
      (id code : String) (now github_user_id : ℕ) (w : World) (entries : List (String × Entry))
      {o : Object} {access_token : String}
      → w.redis ≡ some entries
      → get_live (redis_key token) now entries ≡ some (Json.dict (pending_state token pubkey start))
      → exchange_code client settings code ≡ ok o
      → lookup "access_token" o ≡ some (Value.text access_token)
      → get_user_id client settings access_token ≡ ok github_user_id
      → leb 3 (count_active_agents_for_github github_user_id w.work) ≡ false
      → has_pubkey pubkey w.work ≡ false
      → oauth_callback client settings id code token now w ≡ (
        ok (reply tt),
        registered
            (new_agent id pubkey github_user_id now)
            (with_state token (completed token pubkey github_user_id start now) now entries)
            w,
      )
  unfolding oauth_callback redis_get callback_stored github_user register_agent
      create_registered_agent store_state pending_state redis_setex lookup
  oauth_callback-registered id code now github_user_id w entries r g x a u c p =
      rw (r, g, x, a, u, c, p) refl

  registration_status-Completed :
      (github_user_id now later : ℕ) (w : World) (entries : List (String × Entry))
      → w.redis ≡ some entries
      → get_live (redis_key token) later entries
        ≡ some (completed token pubkey github_user_id start now)
      → registration_status token later w ≡ (
        ok (record {
          status = "complete";
          agent_pubkey = some pubkey;
          registered_at = some (whole_seconds now);
          reason = none;
        }),
        w,
      )
  unfolding registration_status redis_get status_stored status_of complete_status pending_state
      insert lookup
  registration_status-Completed github_user_id now later w entries r g = rw (r, g) refl

  -- The row of the agent that registers.
  abbrev pub new_row : String → ℕ → ℕ → Agent
  new_row id github_user_id now = record {
    id = id;
    pubkey = pubkey;
    github_user_id = some github_user_id;
    created_at = now;
    last_seen_at = none;
    status = AgentStatus.active;
    soft_ban_lifts_at = none;
    intents_created_total = 0;
    connection_requests_sent_total = 0;
    connection_requests_received_total = 0;
    connection_requests_accepted_total = 0;
    sessions_started_total = 0;
    matches_confirmed_total = 0;
    blocks_received_total = 0;
  }

  -- A registration, its callback and the status that is asked for afterwards: the start gives the
  -- token, the callback adds the row, and the status is "complete", with the key and the time of the
  -- callback.
  abbrev pub Registers : String → String → ℕ → ℕ → ℕ → World → Type 0
  Registers id code now later github_user_id w =
      let init = run (init_registration lib client settings token pubkey nonce signature start) w in
      let callback = run (oauth_callback client settings id code token now) init.1 in
      let status = run (registration_status token later) callback.1 in
      (init.0 ≡ ok started)
      × (callback.0 ≡ ok (reply tt))
      × (callback.1.store
          ≡ record w.store { agents = w.store.agents ++ new_row id github_user_id now ∷ [] })
      × (status.0
          ≡ ok (record {
            status = "complete";
            agent_pubkey = some pubkey;
            registered_at = some (whole_seconds now);
            reason = none;
          }))

  Registers_lem :
      (id code : String) (now later github_user_id : ℕ) (w : World)
      (entries : List (String × Entry)) {bytes : List ℕ} {o : Object} {access_token : String}
      → w.redis ≡ some entries
      → lib.b64decode nonce ≡ some bytes
      → verify lib pubkey bytes signature ≡ true
      → now < start + seconds registration_ttl
      → exchange_code client settings code ≡ ok o
      → lookup "access_token" o ≡ some (Value.text access_token)
      → get_user_id client settings access_token ≡ ok github_user_id
      → leb 3 (count_active_agents_for_github github_user_id w.store) ≡ false
      → has_pubkey pubkey w.store ≡ false
      → later < now + seconds registration_ttl
      → Registers id code now later github_user_id w
  unfolding new_agent
  Registers_lem id code now later github_user_id w entries r n v t x a u c p l =
      let pending = Json.dict (pending_state token pubkey start) in
      let one = with_state token pending start entries in
      let full = completed token pubkey github_user_id start now in
      let two = with_state token full now one in
      let w' = record (begin w) { redis = some one } in
      let w'' = registered (new_agent id pubkey github_user_id now) two w' in
      let init = init_registration-started (begin w) entries r n v in
      let live = get_live-set_live (redis_key token) registration_ttl pending start now entries t in
      let callback =
        oauth_callback-registered id code now github_user_id w' one refl live x a u c p in
      let live' = get_live-set_live (redis_key token) registration_ttl full now later one l in
      let status = registration_status-Completed github_user_id now later w'' two refl live' in
      rw (init, callback, status) (refl, refl, refl, refl)

  -- A registration with a valid signature of its nonce, with Redis and for a key that no agent has,
  -- whose callback comes within ten minutes with a code that GitHub gives a token and a user for, who
  -- has fewer than three live agents and none that is hard-banned: the start gives the token, the
  -- callback adds the row of an active agent with the given id, this key and user, no ban and zero in
  -- every counter, and within ten minutes of the callback the status is "complete", with the key and
  -- the time of the callback.
  pub registration-IsComplete :
      (id code : String) (now later github_user_id : ℕ) (w : World)
      (entries : List (String × Entry)) {bytes : List ℕ} {o : Object} {access_token : String}
      → All
          (λ a. a.github_user_id ≡ some github_user_id → a.status ≢ AgentStatus.hard_banned)
          w.store.agents
      → w.redis ≡ some entries
      → lib.b64decode nonce ≡ some bytes
      → verify lib pubkey bytes signature ≡ true
      → now < start + seconds registration_ttl
      → exchange_code client settings code ≡ ok o
      → lookup "access_token" o ≡ some (Value.text access_token)
      → get_user_id client settings access_token ≡ ok github_user_id
      → leb 3 (count_active_agents_for_github github_user_id w.store) ≡ false
      → has_pubkey pubkey w.store ≡ false
      → later < now + seconds registration_ttl
      → Registers id code now later github_user_id w
  registration-IsComplete id code now later github_user_id w entries b r n v t x a u c p l =
      Registers_lem id code now later github_user_id w entries r n v t x a u c p l

  -- The same where an agent of the GitHub user is hard-banned: it registers another agent all the
  -- same.
  pub registration-Readmits :
      (id code : String) (now later github_user_id : ℕ) (w : World) (banned : Agent)
      (entries : List (String × Entry)) {bytes : List ℕ} {o : Object} {access_token : String}
      → In banned w.store.agents
      → banned.github_user_id ≡ some github_user_id
      → banned.status ≡ AgentStatus.hard_banned
      → w.redis ≡ some entries
      → lib.b64decode nonce ≡ some bytes
      → verify lib pubkey bytes signature ≡ true
      → now < start + seconds registration_ttl
      → exchange_code client settings code ≡ ok o
      → lookup "access_token" o ≡ some (Value.text access_token)
      → get_user_id client settings access_token ≡ ok github_user_id
      → leb 3 (count_active_agents_for_github github_user_id w.store) ≡ false
      → has_pubkey pubkey w.store ≡ false
      → later < now + seconds registration_ttl
      → Registers id code now later github_user_id w
  registration-Readmits id code now later github_user_id w banned entries i g b r n v t x a u c p
        l =
      Registers_lem id code now later github_user_id w entries r n v t x a u c p l
