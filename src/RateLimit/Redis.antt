-- ===== src/RateLimit/Redis.antt =====
-- app/core/rate_limit.py: the three Lua scripts that reserve on Redis, and the methods that call
-- them. A script runs atomically at the server's time `now`.
use mcp_yandex_cloud_infra.Prelude.{
  ℕ, ◌+◌, ◌-◌, ◌*◌, ◌≤◌, ◌≡◌, max, String, Bool, true, false, Option, none, some, List, [], ◌∷◌,
  map, ltb, string_eq, ◌==◌, if◌then◌else◌,
}
use mcp_yandex_cloud_infra.RateLimit.Rules.{RateRule}

-- GET at a time, and SET with PX: the value is there until its time to live has passed.
pub record RedisServer : Type 1 where
  pub Store : Type 0
  pub get : String → ℕ → Store → Option ℕ
  pub set_px : String → ℕ → ℕ → ℕ → Store → Store
  pub get-set_px :
      (k j : String) (v ttl now later : ℕ) (s : Store)
      → now ≤ later
      → get j later (set_px k v ttl now s)
        ≡ (if k == j then if ltb later (now + ttl) then some v else none else get j later s)

-- `tonumber(redis.call('GET', key) or '0')`
abbrev pub or_zero : Option ℕ → ℕ
or_zero none = 0
or_zero (some n) = n

-- `max(1, round(r.interval_seconds * 1000))`, with the rule's key.
unfoldable pub redis_slots : List RateRule → List (String × ℕ)
redis_slots = map (λ r. (r.key, max 1 r.interval))

module _ (server : RedisServer) where
  open server use {Store, get, set_px}

  -- The loop over KEYS that raises `grant_ms` (`next_ms` in the try script).
  unfoldable pub grant_ms : List (String × ℕ) → ℕ → Store → ℕ → ℕ
  grant_ms [] now s g = g
  grant_ms ((k, i) ∷ ks) now s g =
      let current = or_zero (get k now s) in
      grant_ms ks now s (if ltb g current then current else g)

  -- The loop of `_REDIS_RESERVE_LUA` that stores the next slot of each key.
  unfoldable pub set_slots : List (String × ℕ) → ℕ → ℕ → Store → Store
  set_slots [] g now s = s
  set_slots ((k, interval) ∷ ks) g now s =
      let next = g + interval in
      let ttl = max 60000 (next - now + interval * 10) in
      set_slots ks g now (set_px k next ttl now s)

  unfoldable pub reserve_redis : List RateRule → ℕ → Store → Store × ℕ
  unfolding grant_ms set_slots redis_slots
  reserve_redis rules now s =
      let slots = redis_slots rules in
      let g = grant_ms slots now s now in (set_slots slots g now s, max 0 (g - now))

  -- `_REDIS_DEFER_LUA`; `blocked_until` is `now_ms + tonumber(ARGV[1])`.
  unfoldable pub defer_keys : List String → ℕ → ℕ → Store → Store
  defer_keys [] blocked_until now s = s
  defer_keys (k ∷ ks) blocked_until now s =
      let target = max (or_zero (get k now s)) blocked_until in
      defer_keys ks blocked_until now (set_px k target (max 60000 (target - now + 60000)) now s)

  unfoldable pub defer_redis : List String → ℕ → ℕ → Store → Store
  unfolding defer_keys
  defer_redis keys seconds now s = defer_keys keys (now + max 1 seconds) now s

  -- The loop of `_REDIS_TRY_RESERVE_LUA` that stores `now_ms + interval_ms`.
  unfoldable pub set_tried : List (String × ℕ) → ℕ → Store → Store
  set_tried [] now s = s
  set_tried ((k, interval) ∷ ks) now s =
      set_tried ks now (set_px k (now + interval) (max 60000 (interval * 11)) now s)

  unfoldable pub try_reserve_redis : List RateRule → ℕ → Store → Store × (Bool × ℕ)
  unfolding grant_ms set_tried redis_slots
  try_reserve_redis rules now s =
      let slots = redis_slots rules in
      let next = grant_ms slots now s now in
      if ltb now next then (s, (false, next - now)) else (set_tried slots now s, (true, 0))
