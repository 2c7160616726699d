-- ===== src/RateLimit/Sqlite.antt =====
-- app/core/rate_limit.py: the reservations on the SQLite table `rate_slots`. Each function is one
-- `BEGIN IMMEDIATE` transaction at the time `now`; it returns the table that is committed.
use mcp_yandex_cloud_infra.Prelude.{
  ℕ, ◌+◌, ◌-◌, ◌≡◌, max, String, Bool, true, false, Option, none, some, List, [], ◌∷◌, ltb,
  string_eq, ◌==◌, if◌then◌else◌,
}
use mcp_yandex_cloud_infra.RateLimit.Rules.{RateRule}

-- `rate_slots(limiter_key TEXT PRIMARY KEY, next_at REAL NOT NULL)`: SELECT by key, and
-- INSERT ... ON CONFLICT DO UPDATE.
pub record SlotTable : Type 1 where
  pub Table : Type 0
  pub next_at : String → Table → Option ℕ
  pub upsert : String → ℕ → Table → Table
  pub next_at-upsert :
      (k j : String) (v : ℕ) (t : Table)
      → next_at j (upsert k v t) ≡ (if k == j then some v else next_at j t)

-- `max(grant, float(row[0]))` if there is a row.
abbrev pub raise_to : Option ℕ → ℕ → ℕ
raise_to none g = g
raise_to (some n) g = max g n

module _ (db : SlotTable) where
  open db use {Table, next_at, upsert}

  -- The first loop of `_reserve_sqlite`, and the `max` of `_try_reserve_sqlite`.
  unfoldable pub grant_at : List RateRule → Table → ℕ → ℕ
  grant_at [] t g = g
  grant_at (r ∷ rs) t g = grant_at rs t (raise_to (next_at r.key t) g)

  -- The loop that writes `grant + interval` to each key.
  unfoldable pub write_slots : List RateRule → ℕ → Table → Table
  write_slots [] g t = t
  write_slots (r ∷ rs) g t = write_slots rs g (upsert r.key (g + r.interval) t)

  unfoldable pub reserve_sqlite : List RateRule → ℕ → Table → Table × ℕ
  unfolding grant_at write_slots
  reserve_sqlite rules now t = let g = grant_at rules t now in (write_slots rules g t, g - now)

  -- `max(blocked_until, float(row[0]) if row else 0.0)`
  unfoldable pub defer_sqlite : List String → ℕ → ℕ → Table → Table
  defer_sqlite [] blocked_until now t = t
  defer_sqlite (k ∷ ks) seconds now t =
      defer_sqlite ks seconds now (upsert k (raise_to (next_at k t) (now + seconds)) t)

  unfoldable pub try_reserve_sqlite : List RateRule → ℕ → Table → Table × (Bool × ℕ)
  unfolding grant_at write_slots
  try_reserve_sqlite rules now t =
      let next = grant_at rules t now in
      if ltb now next then (t, (false, next - now)) else (write_slots rules now t, (true, 0))
