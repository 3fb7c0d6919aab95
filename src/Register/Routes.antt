-- ===== src/Register/Routes.antt =====
-- The three routes of src/babeltower/routes/register.py.
use babeltower.Prelude.{ℕ, String, Option, none, some, List, if◌then◌else◌, leb, lookup}
use babeltower.World.{Json}
use babeltower.Exec.{Exec, Response, reply, error_response, http, pure, raise, query, ◌>>=◌, ◌>>◌}
use babeltower.Crypto.{CryptoLib, verify}
use babeltower.Redis.{get_redis, redis_get, redis_setex}
use babeltower.GithubOauth.{HttpClient, Settings, build_oauth_url, exchange_code, get_user_id}
use babeltower.Register.{
  registration_ttl, redis_key, count_active_agents_for_github, create_registered_agent, item,
  value_or_error, as_text, lift_result, store_state, pending_state, failed_changes,
  complete_changes, RegistrationInit, RegistrationStatus, status_of,
}

-- POST /register/init; `token` is the new id.
module _ (lib : CryptoLib) (client : HttpClient) (settings : Settings) where
  unfoldable pub with_nonce :
      String → String → String → String → ℕ → Option (List ℕ) → Exec RegistrationInit
  with_nonce token agent_pubkey nonce nonce_signature now none = raise (http 400 "invalid nonce")
  with_nonce token agent_pubkey nonce nonce_signature now (some nonce_bytes) =
      if verify lib agent_pubkey nonce_bytes nonce_signature
      then (do
        redis_setex (redis_key token) registration_ttl
            (Json.dict (pending_state token agent_pubkey now)) now
        pure (record {
          registration_token = token;
          github_oauth_url = build_oauth_url client settings token;
          expires_in = registration_ttl;
        }))
      else raise (http 400 "invalid nonce signature")

  unfoldable pub init_registration : String → String → String → String → ℕ → Exec RegistrationInit
  unfolding with_nonce
  init_registration token agent_pubkey nonce nonce_signature now = do
    get_redis
    with_nonce token agent_pubkey nonce nonce_signature now (lib.b64decode nonce)

-- GET /register/oauth/callback. The reply is the page of a registration that is complete; `id` is
-- the new agent's.
module _ (client : HttpClient) (settings : Settings) where
  -- `token_response["access_token"]` and the user that it gives
  unfoldable pub github_user : String → Exec ℕ
  unfolding lookup
  github_user code = do
    token_response ← lift_result (exchange_code client settings code)
    access_token ← value_or_error (lookup "access_token" token_response)
    text ← as_text access_token
    lift_result (get_user_id client settings text)

  unfoldable pub register_agent : String → String → Json → ℕ → ℕ → Exec (Response (Unit {0}))
  unfolding lookup
  register_agent id state stored github_user_id now = do
    agent_pubkey ← item "agent_pubkey" stored
    text ← as_text agent_pubkey
    create_registered_agent id text github_user_id now
    store_state state stored (complete_changes github_user_id now) now
    pure (reply tt)

  unfoldable pub callback_stored :
      String → String → String → ℕ → Option Json → Exec (Response (Unit {0}))
  callback_stored id code state now none = raise (http 400 "registration token expired")
  callback_stored id code state now (some stored) = do
    github_user_id ← github_user code
    agent_count ← query (count_active_agents_for_github github_user_id)
    if leb 3 agent_count
        then (do
          store_state state stored failed_changes now
          pure (error_response 403 "GitHub account is at agent limit."))
        else register_agent id state stored github_user_id now

  unfoldable pub oauth_callback : String → String → String → ℕ → Exec (Response (Unit {0}))
  oauth_callback id code state now = do
    stored ← redis_get (redis_key state) now
    callback_stored id code state now stored

-- GET /register/status
unfoldable pub status_stored : Option Json → Exec RegistrationStatus
unfolding lookup
status_stored none = raise (http 404 "registration token not found")
status_stored (some stored) = do status ← item "status" stored; status_of stored status

unfoldable pub registration_status : String → ℕ → Exec RegistrationStatus
registration_status token now = do stored ← redis_get (redis_key token) now; status_stored stored
