-- ===== src/Lifecycle/Registering.antt =====
-- A registration leaves sessions and requests alone: src/babeltower/routes/register.py.
use babeltower.Prelude.{
  ℕ, String, refl, Option, none, some, List, inl, inr, Option-cases, leb, lookup,
}
use babeltower.World.{World, Object, Value, Json}
use babeltower.Exec.{Exec, pure, reply, ◌>>=◌, ◌>>◌}
use babeltower.Crypto.{CryptoLib, verify}
use babeltower.Redis.{get_redis, redis_get, redis_setex}
use babeltower.GithubOauth.{HttpClient, Settings, exchange_code, get_user_id}
use babeltower.Register.{
  registration_ttl, redis_key, count_active_agents_for_github, has_pubkey, create_registered_agent,
  item, value_or_error, as_text, lift_result, store_state, pending_state, failed_changes,
  complete_changes,
}
use babeltower.Register.Routes.{
  with_nonce, init_registration, github_user, register_agent, callback_stored, oauth_callback,
}
use babeltower.Lifecycle.Steps.{Steps-other}
use babeltower.Lifecycle.Sound.{Fits, After, After-stay, After-bind, After-if_run, After-commit}
use babeltower.Lifecycle.Silent.{Silent, Silent-here, Silent-bind, Silent-if_run, After-Silent}

redis_get-Silent : (key : String) (now : ℕ) (w : World) → Silent w (redis_get key now w)
unfolding redis_get
redis_get-Silent key now w = elim (Option-cases w.redis) [
  | inl e ↦ rw e (Silent-here _)
  | inr (entries, e) ↦ rw e (Silent-here _)
]

get_redis-Silent : (w : World) → Silent w (get_redis w)
unfolding get_redis
get_redis-Silent w = elim (Option-cases w.redis) [
  | inl e ↦ rw e (Silent-here _)
  | inr (entries, e) ↦ rw e (Silent-here _)
]

pub redis_setex-Silent :
    (key : String) (ttl : ℕ) (value : Json) (now : ℕ) (w : World)
    → Silent w (redis_setex key ttl value now w)
unfolding redis_setex
redis_setex-Silent key ttl value now w = elim (Option-cases w.redis) [
  | inl e ↦ rw e (Silent-here _)
  | inr (entries, e) ↦ rw e (record { same = record { store = refl; work = refl } })
]

store_state-Silent :
    (state : String) (stored : Json) (changes : Object) (now : ℕ) (w : World)
    → Silent w (store_state state stored changes now w)
unfolding store_state
store_state-Silent state (Json.numbers ns) changes now w = Silent-here _
store_state-Silent state (Json.dict o) changes now w =
    redis_setex-Silent (redis_key state) _ _ now w

module _ (lib : CryptoLib) (client : HttpClient) (settings : Settings) where
  with_nonce-Silent :
      (token pubkey nonce signature : String) (now : ℕ) (o : Option (List ℕ)) (w : World)
      → Silent w (with_nonce lib client settings token pubkey nonce signature now o w)
  unfolding with_nonce
  with_nonce-Silent token pubkey nonce signature now none w = Silent-here _
  with_nonce-Silent token pubkey nonce signature now (some bytes) w =
      Silent-if_run w (verify lib pubkey bytes signature) _ _
        (Silent-bind
          (redis_setex (redis_key token) registration_ttl
            (Json.dict (pending_state token pubkey now)) now)
          _ w (redis_setex-Silent (redis_key token) registration_ttl _ now w) λ a v. Silent-here _)
        (Silent-here _)

  pub init_registration-Silent :
      (token pubkey nonce signature : String) (now : ℕ) (w : World)
      → Silent w (init_registration lib client settings token pubkey nonce signature now w)
  unfolding init_registration
  init_registration-Silent token pubkey nonce signature now w =
      Silent-bind get_redis
        (λ _. with_nonce lib client settings token pubkey nonce signature now (lib.b64decode nonce))
        w (get_redis-Silent w)
        (λ _ v. with_nonce-Silent token pubkey nonce signature now (lib.b64decode nonce) v)

-- Reading a text out of a value.
module _ {A : Type 0} (k : String → Exec A) (w : World) (f : Fits w)
    (h : (t : String) → After w (k t w)) where
  as_text-After : (v : Value) → After w ((as_text v >>= k) w)
  as_text-After (Value.text t) = h t
  as_text-After (Value.time t) = After-stay _ f
  as_text-After (Value.number n) = After-stay _ f
  as_text-After Value.null = After-stay _ f
  as_text-After (Value.raw t) = After-stay _ f

  value_or_error-After :
      (o : Option Value) → After w ((do v ← value_or_error o; t ← as_text v; k t) w)
  value_or_error-After none = After-stay _ f
  value_or_error-After (some v) = as_text-After v

  item-After :
      (key : String) (stored : Json) → After w ((do v ← item key stored; t ← as_text v; k t) w)
  item-After key (Json.dict o) = value_or_error-After (lookup key o)
  item-After key (Json.numbers ns) = After-stay _ f

create_registered_agent-After :
    (id pubkey : String) (github_user_id now : ℕ) (w : World)
    → Fits w
    → After w (create_registered_agent id pubkey github_user_id now w)
unfolding create_registered_agent
create_registered_agent-After id pubkey github_user_id now w f =
    After-if_run w w (has_pubkey pubkey w.work) _ _ (λ _. After-stay _ f)
      λ _. After-commit _ refl f (Steps-other refl refl)

module _ (client : HttpClient) (settings : Settings) (state : String) (now : ℕ) where
  store_state-After :
      {A : Type 0} (stored : Json) (changes : Object) (a : A) (w : World)
      → Fits w
      → After w ((store_state state stored changes now >> pure a) w)
  store_state-After stored changes a w f =
      After-bind (store_state state stored changes now) (λ _. pure a) w
        (After-Silent _ (store_state-Silent state stored changes now w) f) λ b v g. After-stay _ g

  register_agent-After :
      (id : String) (stored : Json) (github_user_id : ℕ) (w : World)
      → Fits w
      → After w (register_agent client settings id state stored github_user_id now w)
  unfolding register_agent
  register_agent-After id stored github_user_id w f =
      item-After
        (λ t. (do
          create_registered_agent id t github_user_id now
          store_state state stored (complete_changes github_user_id now) now
          pure (reply tt)))
        w f
        (λ t.
          After-bind (create_registered_agent id t github_user_id now) _ w
            (create_registered_agent-After id t github_user_id now w f)
            λ a v g. store_state-After stored (complete_changes github_user_id now) (reply tt) v g)
        "agent_pubkey" stored

  github_user-After :
      (code : String) (w : World) → Fits w → After w (github_user client settings code w)
  unfolding github_user
  github_user-After code w f =
      After-bind (lift_result (exchange_code client settings code)) _ w (After-stay _ f) λ o v g.
        value_or_error-After (λ t. lift_result (get_user_id client settings t)) v g
          (λ t. After-stay _ g) (lookup "access_token" o)

  callback_stored-After :
      (id code : String) (stored : Option Json) (w : World)
      → Fits w
      → After w (callback_stored client settings id code state now stored w)
  unfolding callback_stored
  callback_stored-After id code none w f = After-stay _ f
  callback_stored-After id code (some stored) w f =
      After-bind (github_user client settings code) _ w (github_user-After code w f)
        λ github_user_id v g.
          After-if_run v v (leb 3 (count_active_agents_for_github github_user_id v.work)) _ _
            (λ _. store_state-After stored failed_changes _ v g)
            λ _. register_agent-After id stored github_user_id v g

  pub oauth_callback-After :
      (id code : String) (w : World)
      → Fits w
      → After w (oauth_callback client settings id code state now w)
  unfolding oauth_callback
  oauth_callback-After id code w f =
      After-bind (redis_get (redis_key state) now) _ w
        (After-Silent _ (redis_get-Silent (redis_key state) now w) f)
        λ stored v g. callback_stored-After id code stored v g
