-- ===== src/Register/Cap.antt =====
-- The cap on the agents of one GitHub account and the uniqueness of keys, over a callback of
-- src/babeltower/routes/register.py, whatever GitHub and Redis answer.
use babeltower.Prelude.{
  ℕ, ◌≤◌, String, ◌≡◌, Option, none, some, false, [], ◌∷◌, inl, inr, leb, lookup, arith, Bool-cases,
  Option-cases, ◌==◌, nat_eq, nat_beq_iff, string_eq, count, count-append,
}
use text.Mathlib.TextEquality.{eq_iff}
use babeltower.Models.{Db, Agent, agent_status_eq}
use babeltower.World.{World, Object, Value, Json}
use babeltower.Exec.{Exec, Result, reply, pure, ◌>>◌, run, begin, ◌>>=◌}
use babeltower.Exec.Keeps.{Keeps, bind-Keeps, if-Keeps}
use babeltower.Redis.{redis_get, redis_setex}
use babeltower.GithubOauth.{HttpClient, Settings, exchange_code, get_user_id}
use babeltower.Register.{
  is_live_of, count_active_agents_for_github, new_agent, add_agent, has_pubkey,
  create_registered_agent, item, value_or_error, as_text, lift_result, redis_key, store_state,
  failed_changes, complete_changes,
}
use babeltower.Register.Routes.{github_user, register_agent, callback_stored, oauth_callback}

-- No GitHub account has more than three live agents, and no two agents have one key.
pub record IsCapped (db : Db) : Type 0 where
  pub capped : (github_user_id : ℕ) → count_active_agents_for_github github_user_id db ≤ 3
  pub unique : (pubkey : String) → count (λ a. a.pubkey == pubkey) db.agents ≤ 1

add_agent-IsCapped :
    (id pubkey : String) (github_user_id now : ℕ) (db : Db)
    → leb 3 (count_active_agents_for_github github_user_id db) ≡ false
    → has_pubkey pubkey db ≡ false
    → IsCapped db
    → IsCapped (add_agent (new_agent id pubkey github_user_id now) db)
unfolding count_active_agents_for_github has_pubkey new_agent count
add_agent-IsCapped id pubkey github_user_id now db room free h =
    let a = new_agent id pubkey github_user_id now in
    record {
      capped = λ g. elim (Bool-cases (github_user_id == g)) [
        | inl t ↦
            let same = (nat_beq_iff github_user_id g).0 t in
            ground (arith, count-append (is_live_of g) db.agents (a ∷ []), room, same)
        | inr t ↦ ground (arith, count-append (is_live_of g) db.agents (a ∷ []), h.capped g, t)
      ];
      unique = λ k.
          let p = λ (x : Agent). x.pubkey == k in
          elim (Bool-cases (pubkey == k)) [
            | inl t ↦
                let same = (eq_iff pubkey k).0 t in
                let none_yet : count (λ x. x.pubkey == pubkey) db.agents ≡ 0 =
                  ground (arith, free) in
                let here : count p db.agents ≡ 0 = rw (← same) none_yet in
                ground (arith, count-append p db.agents (a ∷ []), here)
            | inr t ↦ ground (arith, count-append p db.agents (a ∷ []), h.unique k, t)
          ];
    }

abbrev Capped : {A : Type 0} → Result A × World → Type 0
Capped = Keeps IsCapped

redis_get-Capped :
    (key : String) (now : ℕ) (w : World)
    → IsCapped w.store
    → IsCapped w.work
    → Capped (redis_get key now w)
unfolding redis_get
redis_get-Capped key now w g h = elim (Option-cases w.redis) [
  | inl e ↦ rw e (g, h)
  | inr (entries, e) ↦ rw e (g, h)
]

store_state-Capped :
    (state : String) (stored : Json) (changes : Object) (now : ℕ) (w : World)
    → IsCapped w.store
    → IsCapped w.work
    → Capped (store_state state stored changes now w)
unfolding store_state redis_setex
store_state-Capped state (Json.numbers ns) changes now w g h = (g, h)
store_state-Capped state (Json.dict o) changes now w g h = elim (Option-cases w.redis) [
  | inl e ↦ rw e (g, h)
  | inr (entries, e) ↦ rw e (g, h)
]

create_registered_agent-Capped :
    (id pubkey : String) (github_user_id now : ℕ) (w : World)
    → leb 3 (count_active_agents_for_github github_user_id w.work) ≡ false
    → IsCapped w.store
    → IsCapped w.work
    → Capped (create_registered_agent id pubkey github_user_id now w)
unfolding create_registered_agent
create_registered_agent-Capped id pubkey github_user_id now w room g h =
    if-Keeps IsCapped (has_pubkey pubkey w.work) _ _ w (g, h)
      λ free.
        let more = add_agent-IsCapped id pubkey github_user_id now w.work room free h in
        (more, more)

-- Reading a text out of a value: the world stays.
module _ {A : Type 0} (k : String → Exec A) (w : World) (g : IsCapped w.store) (h : IsCapped w.work)
    (f : (t : String) → Capped (k t w)) where
  as_text-Capped : (v : Value) → Capped ((as_text v >>= k) w)
  as_text-Capped (Value.text t) = f t
  as_text-Capped (Value.time t) = (g, h)
  as_text-Capped (Value.number n) = (g, h)
  as_text-Capped Value.null = (g, h)
  as_text-Capped (Value.raw t) = (g, h)

  value_or_error-Capped :
      (o : Option Value) → Capped ((do v ← value_or_error o; t ← as_text v; k t) w)
  value_or_error-Capped none = (g, h)
  value_or_error-Capped (some v) = as_text-Capped v

  item-Capped :
      (key : String) (stored : Json) → Capped ((do v ← item key stored; t ← as_text v; k t) w)
  item-Capped key (Json.dict o) = value_or_error-Capped (lookup key o)
  item-Capped key (Json.numbers ns) = (g, h)

module _ (client : HttpClient) (settings : Settings) where
  register_agent-Capped :
      (id state : String) (stored : Json) (github_user_id now : ℕ) (w : World)
      → leb 3 (count_active_agents_for_github github_user_id w.work) ≡ false
      → IsCapped w.store
      → IsCapped w.work
      → Capped (register_agent client settings id state stored github_user_id now w)
  unfolding register_agent
  register_agent-Capped id state stored github_user_id now w room g h =
      item-Capped
        (λ t. (do
          create_registered_agent id t github_user_id now
          store_state state stored (complete_changes github_user_id now) now
          pure (reply tt)))
        w g h
        (λ t.
          bind-Keeps IsCapped (create_registered_agent id t github_user_id now) _ w
            (create_registered_agent-Capped id t github_user_id now w room g h)
            λ a v x y.
              bind-Keeps IsCapped
                (store_state state stored (complete_changes github_user_id now) now) _ v
                (store_state-Capped state stored (complete_changes github_user_id now) now v x y)
                λ b u z z'. (z, z'))
        "agent_pubkey" stored

  github_user-Capped :
      (code : String) (w : World)
      → IsCapped w.store
      → IsCapped w.work
      → Capped (github_user client settings code w)
  unfolding github_user
  github_user-Capped code w g h =
      bind-Keeps IsCapped (lift_result (exchange_code client settings code)) _ w (g, h)
        λ o v x y.
          value_or_error-Capped (λ t. lift_result (get_user_id client settings t)) v x y
            (λ t. (x, y)) (lookup "access_token" o)

  callback_stored-Capped :
      (id code state : String) (now : ℕ) (stored : Option Json) (w : World)
      → IsCapped w.store
      → IsCapped w.work
      → Capped (callback_stored client settings id code state now stored w)
  unfolding callback_stored
  callback_stored-Capped id code state now none w g h = (g, h)
  callback_stored-Capped id code state now (some stored) w g h =
      bind-Keeps IsCapped (github_user client settings code) _ w (github_user-Capped code w g h)
        λ github_user_id v x y.
          if-Keeps IsCapped (leb 3 (count_active_agents_for_github github_user_id v.work)) _ _ v
            (bind-Keeps IsCapped (store_state state stored failed_changes now) _ v
              (store_state-Capped state stored failed_changes now v x y) λ a u z z'. (z, z'))
            λ room. register_agent-Capped id state stored github_user_id now v room x y

  -- Where no GitHub account has more than three live agents and no two agents have one key, this is so
  -- after GET /register/oauth/callback, in the database that the call leaves, whatever the code, the
  -- state and the answers of GitHub are, also where the call fails.
  pub oauth_callback-IsCapped :
      (id code state : String) (now : ℕ) (w : World)
      → IsCapped w.store
      → IsCapped (run (oauth_callback client settings id code state now) w).1.store
  unfolding oauth_callback
  oauth_callback-IsCapped id code state now w g =
      (bind-Keeps IsCapped (redis_get (redis_key state) now) _ (begin w)
        (redis_get-Capped (redis_key state) now (begin w) g g)
        λ stored v x y. callback_stored-Capped id code state now stored v x y).0
