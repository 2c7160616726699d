-- ===== src/RateLimit/Refinement.antt =====
-- The Lua scripts of app/core/rate_limit.py against the SQLite transactions.
use mcp_yandex_cloud_infra.Prelude.{
  ℕ, ◌+◌, ◌≤◌, ◌<◌, ◌≡◌, refl, inl, inr, max, String, Bool, true, List, [], ◌∷◌, All, arith, ltb,
  Bool-cases, streq_iff,
}
use mcp_yandex_cloud_infra.RateLimit.Rules.{RateRule}
use mcp_yandex_cloud_infra.RateLimit.Sqlite.{
  SlotTable, raise_to, grant_at, write_slots, reserve_sqlite, defer_sqlite, try_reserve_sqlite,
}
use mcp_yandex_cloud_infra.RateLimit.Spacing.{Op, reserve, attempt, defer, le-grant_at}
use mcp_yandex_cloud_infra.RateLimit.Redis.{
  RedisServer, or_zero, redis_slots, grant_ms, set_slots, reserve_redis, defer_keys, defer_redis,
  set_tried, try_reserve_redis,
}

-- The rules that `acquire` and `try_acquire` hand on.
abbrev pub IsNormalized : List RateRule → Type 0
IsNormalized = All (λ r. 0 < r.interval)

module _ (server : RedisServer) (db : SlotTable) where
  -- From `now` on, both sides hold each key back until the same time.
  abbrev pub Agrees : ℕ → server.Store → db.Table → Type 0
  Agrees now s t =
      (k : String) (later : ℕ)
      → now ≤ later
      → max later (or_zero (server.get k later s)) ≡ max later (raise_to (db.next_at k t) 0)

  grant_ms-eq-grant_at :
      (rs : List RateRule) (now g : ℕ) (s : server.Store) (t : db.Table)
      → now ≤ g
      → Agrees now s t
      → grant_ms server (redis_slots rs) now s g ≡ grant_at db rs t g
  unfolding grant_ms grant_at redis_slots
  grant_ms-eq-grant_at [] now g s t h a = refl
  grant_ms-eq-grant_at (r ∷ rs) now g s t h a =
      ground (arith, a r.key now, grant_ms-eq-grant_at rs now (raise_to (db.next_at r.key t) g) s t)

  -- A write of the same time, with a time to live that reaches it.
  Agrees-write :
      (k : String) (v w ttl now : ℕ) (s : server.Store) (t : db.Table)
      → max now v ≡ max now w
      → v ≤ now + ttl
      → Agrees now s t
      → Agrees now (server.set_px k v ttl now s) (db.upsert k w t)
  Agrees-write k v w ttl now s t e h a j later le = ground (
    arith,
    streq_iff k j,
    a j later le,
    server.get-set_px k j v ttl now later s le,
    db.next_at-upsert k j w t,
  )

  Agrees-slots :
      (rs : List RateRule) (now g : ℕ) (s : server.Store) (t : db.Table)
      → now ≤ g
      → IsNormalized rs
      → Agrees now s t
      → Agrees now (set_slots server (redis_slots rs) g now s) (write_slots db rs g t)
  unfolding set_slots write_slots redis_slots
  Agrees-slots [] now g s t h n a = a
  Agrees-slots (r ∷ rs) now g s t h n a =
      Agrees-slots rs now g _ (db.upsert r.key (g + r.interval) t) h n.1 (
        Agrees-write r.key (g + max 1 r.interval) (g + r.interval) _ now s t (omega (arith, n.0))
          (omega (arith, n.0)) a)

  Agrees-tried :
      (rs : List RateRule) (now : ℕ) (s : server.Store) (t : db.Table)
      → IsNormalized rs
      → Agrees now s t
      → Agrees now (set_tried server (redis_slots rs) now s) (write_slots db rs now t)
  unfolding set_tried write_slots redis_slots
  Agrees-tried [] now s t n a = a
  Agrees-tried (r ∷ rs) now s t n a =
      Agrees-tried rs now _ (db.upsert r.key (now + r.interval) t) n.1 (
        Agrees-write r.key (now + max 1 r.interval) (now + r.interval) _ now s t
          (omega (arith, n.0)) (omega (arith, n.0)) a)

  Agrees-defer :
      (ks : List String) (seconds now : ℕ) (s : server.Store) (t : db.Table)
      → Agrees now s t
      → Agrees now (defer_keys server ks (now + seconds) now s) (defer_sqlite db ks seconds now t)
  unfolding defer_keys defer_sqlite
  Agrees-defer [] seconds now s t a = a
  Agrees-defer (k ∷ ks) seconds now s t a =
      let v = max (or_zero (server.get k now s)) (now + seconds) in
      let w = raise_to (db.next_at k t) (now + seconds) in
      Agrees-defer ks seconds now _ (db.upsert k w t)
        (Agrees-write k v w _ now s t (ground (arith, a k now)) (omega arith) a)

  reserve-Agrees :
      (rs : List RateRule) (now : ℕ) (s : server.Store) (t : db.Table)
      → IsNormalized rs
      → Agrees now s t
      → ((reserve_redis server rs now s).1 ≡ (reserve_sqlite db rs now t).1)
        × Agrees now (reserve_redis server rs now s).0 (reserve_sqlite db rs now t).0
  unfolding reserve_redis reserve_sqlite
  reserve-Agrees rs now s t n a =
      let e = grant_ms-eq-grant_at rs now now s t (omega arith) a in
      rw e (omega arith, Agrees-slots rs now _ s t (le-grant_at db rs t now) n a)

  try_reserve-Agrees :
      (rs : List RateRule) (now : ℕ) (s : server.Store) (t : db.Table)
      → IsNormalized rs
      → Agrees now s t
      → ((try_reserve_redis server rs now s).1 ≡ (try_reserve_sqlite db rs now t).1)
        × Agrees now (try_reserve_redis server rs now s).0 (try_reserve_sqlite db rs now t).0
  unfolding try_reserve_redis try_reserve_sqlite
  try_reserve-Agrees rs now s t n a =
      let e = grant_ms-eq-grant_at rs now now s t (omega arith) a in
      elim (Bool-cases (ltb now (grant_at db rs t now))) [
        | inl busy ↦ rw (e, busy) (refl, a)
        | inr free ↦ rw (e, free) (refl, Agrees-tried rs now s t n a)
      ]

  -- One call on the Redis backend: the new store, and what the caller is told.
  unfoldable pub call_redis : ℕ × Op → server.Store → server.Store × (Bool × ℕ)
  call_redis (now, reserve rules) s =
      let (s', delay) = reserve_redis server rules now s in (s', (true, delay))
  call_redis (now, attempt rules) s = try_reserve_redis server rules now s
  call_redis (now, defer keys seconds) s = (defer_redis server keys seconds now s, (true, 0))

  unfoldable pub call_sqlite : ℕ × Op → db.Table → db.Table × (Bool × ℕ)
  call_sqlite (now, reserve rules) t =
      let (t', delay) = reserve_sqlite db rules now t in (t', (true, delay))
  call_sqlite (now, attempt rules) t = try_reserve_sqlite db rules now t
  call_sqlite (now, defer keys seconds) t = (defer_sqlite db keys seconds now t, (true, 0))

  -- The answers of a whole history of calls.
  unfoldable pub answers_redis : List (ℕ × Op) → server.Store → List (Bool × ℕ)
  unfolding call_redis
  answers_redis [] s = []
  answers_redis (e ∷ es) s = let (s', out) = call_redis e s in out ∷ answers_redis es s'

  unfoldable pub answers_sqlite : List (ℕ × Op) → db.Table → List (Bool × ℕ)
  unfolding call_sqlite
  answers_sqlite [] t = []
  answers_sqlite (e ∷ es) t = let (t', out) = call_sqlite e t in out ∷ answers_sqlite es t'

  -- What the controller hands to a backend: positive intervals, a positive cooldown.
  abbrev pub IsCall : Op → Type 0
  IsCall (reserve rules) = IsNormalized rules
  IsCall (attempt rules) = IsNormalized rules
  IsCall (defer keys seconds) = 0 < seconds

  abbrev pub IsHistory : ℕ → List (ℕ × Op) → Type 0
  IsHistory start [] = Unit
  IsHistory start (e ∷ es) = (start ≤ e.0) × (IsCall e.1 × IsHistory e.0 es)

  call-Agrees :
      (e : ℕ × Op) (s : server.Store) (t : db.Table)
      → IsCall e.1
      → Agrees e.0 s t
      → ((call_redis e s).1 ≡ (call_sqlite e t).1)
        × Agrees e.0 (call_redis e s).0 (call_sqlite e t).0
  unfolding call_redis call_sqlite
  call-Agrees (now, reserve rules) s t n a =
      let (same, kept) = reserve-Agrees rules now s t n a in (rw same, kept)
  call-Agrees (now, attempt rules) s t n a = try_reserve-Agrees rules now s t n a
  call-Agrees (now, defer keys seconds) s t n a = (
    refl,
    unfold defer_redis in
        let e : max 1 seconds ≡ seconds = omega arith in rw e (Agrees-defer keys seconds now s t a),
  )

  -- Over any history of reservations, attempts and cooldowns in order of time, the Redis scripts
  -- answer every call as the SQLite transactions do, from states that hold each key back until the
  -- same time.
  pub redis_refines_sqlite :
      (start : ℕ) (es : List (ℕ × Op)) (s : server.Store) (t : db.Table)
      → IsHistory start es
      → Agrees start s t
      → answers_redis es s ≡ answers_sqlite es t
  unfolding answers_redis answers_sqlite
  redis_refines_sqlite start [] s t h a = refl
  redis_refines_sqlite start (e ∷ es) s t h a =
      let (same, kept) =
        call-Agrees e s t h.1.0 (λ k later le. a k later (omega (arith, h.0, le))) in
      cc (same, redis_refines_sqlite e.0 es (call_redis e s).0 (call_sqlite e t).0 h.1.1 kept)
