-- ===== src/Redis.antt =====
-- Redis as the server uses it: `get` and `setex`. A key that has expired is not there.
use babeltower.Prelude.{
  ℕ, ◌+◌, String, Option, none, some, List, ltb, lookup, insert, if◌then◌else◌,
}
use babeltower.Models.{seconds}
use babeltower.World.{Json, Entry}
use babeltower.Exec.{Exec, ok, err, http}

abbrev pub live : ℕ → Option Entry → Option Json
live now none = none
live now (some e) = if ltb now e.expires_at then some e.value else none

-- `redis.get(key)`, with the JSON read
unfoldable pub get_live : String → ℕ → List (String × Entry) → Option Json
unfolding lookup
get_live key now entries = live now (lookup key entries)

-- `redis.setex(key, ttl, value)`; `ttl` is in seconds
unfoldable pub set_live : String → ℕ → Json → ℕ → List (String × Entry) → List (String × Entry)
unfolding insert
set_live key ttl value now = insert key (record { value = value; expires_at = now + seconds ttl })

-- `get_redis` of routes/register.py, which runs before the handlers that depend on it
unfoldable pub get_redis : Exec (Unit {0})
get_redis w = elim w.redis [
  | none ↦ (err (http 503 "redis unavailable"), w)
  | some entries ↦ (ok tt, w)
]

-- A command, behind `get_redis`.
unfoldable pub redis_get : String → ℕ → Exec (Option Json)
redis_get key now w = elim w.redis [
  | none ↦ (err (http 503 "redis unavailable"), w)
  | some entries ↦ (ok (get_live key now entries), w)
]

unfoldable pub redis_setex : String → ℕ → Json → ℕ → Exec (Unit {0})
redis_setex key ttl value now w = elim w.redis [
  | none ↦ (err (http 503 "redis unavailable"), w)
  | some entries ↦ (ok tt, record w { redis = some (set_live key ttl value now entries) })
]
