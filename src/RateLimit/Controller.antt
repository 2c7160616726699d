-- ===== src/RateLimit/Controller.antt =====
-- app/core/rate_limit.py: `GlobalRateController.acquire`, `try_acquire` and `defer`, over either
-- backend, and the SQLite table as such a backend. `none` is `RateLimitUnavailable`.
use mcp_yandex_cloud_infra.Prelude.{
  ℕ, ◌+◌, String, Bool, true, false, not, ◌||◌, Option, none, some, List, [], ◌∷◌, map, keep_if,
  ltb, string_eq, if◌then◌else◌,
}
use mcp_yandex_cloud_infra.Text.{ends_with}
use mcp_yandex_cloud_infra.RateLimit.Rules.{RateRule}
use mcp_yandex_cloud_infra.RateLimit.Sqlite.{
  SlotTable, reserve_sqlite, defer_sqlite, try_reserve_sqlite,
}

unfoldable pub is_global : RateRule → Bool
is_global r = ends_with ":global" r.key

abbrev pub normalized : List RateRule → List RateRule
normalized = keep_if (λ r. ltb 0 r.interval)

abbrev pub specific_of : List RateRule → List RateRule
specific_of = keep_if (λ r. not (is_global r))

abbrev pub global_of : List RateRule → List RateRule
global_of = keep_if is_global

-- A backend's transactions at a time; a backend that raises has rolled back.
pub record Backend : Type 1 where
  pub State : Type 0
  pub reserve : List RateRule → ℕ → State → State × Option ℕ
  pub try_reserve : List RateRule → ℕ → State → State × Option (Bool × ℕ)
  pub defer : List String → ℕ → ℕ → State → State × Option (Unit {0})

abbrev pub is_empty {ℓ} : {A : Type ℓ} → List A → Bool
is_empty [] = true
is_empty (x ∷ xs) = false

-- `specific or normalized`
unfoldable pub deferred_keys : List RateRule → List String
deferred_keys rules =
    let wanted = normalized rules in
    let specific = specific_of wanted in
    map (λ r. r.key) (if is_empty specific then wanted else specific)

module _ (backend : Backend) where
  open backend use {State, reserve, try_reserve, defer}

  -- The loop over the stages; `lag` is the time that a stage takes beyond its sleep.
  abbrev pub after_stage : Option ℕ → State → (ℕ → State × Option ℕ) → State × Option ℕ
  after_stage none s rest = (s, none)
  after_stage (some delay) s rest = rest delay

  unfoldable pub run_stages : List (List RateRule) → ℕ → ℕ → ℕ → State → State × Option ℕ
  run_stages [] lag now total s = (s, some total)
  run_stages (group ∷ stages) lag now total s =
      let (s', delay) = reserve group now s in
      after_stage delay s' (λ d. run_stages stages lag (now + d + lag) (total + d) s')

  unfoldable pub acquire : List RateRule → ℕ → ℕ → State → State × Option ℕ
  unfolding run_stages
  acquire rules lag now s =
      let wanted = normalized rules in
      let stages = keep_if (λ g. not (is_empty g)) (specific_of wanted ∷ global_of wanted ∷ []) in
      if is_empty wanted then (s, some 0) else run_stages stages lag now 0 s

  unfoldable pub try_acquire : List RateRule → ℕ → State → State × Option (Bool × ℕ)
  try_acquire rules now s =
      let wanted = normalized rules in
      if is_empty wanted then (s, some (true, 0)) else try_reserve wanted now s

  unfoldable pub defer_rules : List RateRule → ℕ → ℕ → State → State × Option (Unit {0})
  unfolding deferred_keys
  defer_rules rules seconds now s =
      let keys = deferred_keys rules in
      if is_empty keys || not (ltb 0 seconds) then (s, some tt) else defer keys seconds now s

-- The SQLite backend on a database that does not fail.
abbrev pub sqlite_backend : SlotTable → Backend
sqlite_backend db = record {
  State = db.Table;
  reserve = λ rules now t. let (t', d) = reserve_sqlite db rules now t in (t', some d);
  try_reserve = λ rules now t. let (t', r) = try_reserve_sqlite db rules now t in (t', some r);
  defer = λ keys seconds now t. (defer_sqlite db keys seconds now t, some tt);
}
