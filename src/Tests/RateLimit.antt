-- ===== src/Tests/RateLimit.antt =====
-- The limiter on two rules.
use mcp_yandex_cloud_infra.Prelude.{
  ℕ, ◌+◌, ◌≤◌, ◌≡◌, refl, inl, String, true, List, [], ◌∷◌, arith, string_eq,
}
use mcp_yandex_cloud_infra.Dict.{lookup, insert}
use mcp_yandex_cloud_infra.RateLimit.Rules.{RateRule}
use mcp_yandex_cloud_infra.RateLimit.Sqlite.{
  grant_at, write_slots, defer_sqlite, try_reserve_sqlite,
}
use mcp_yandex_cloud_infra.RateLimit.Spacing.{
  Op, reserve, attempt, defer, run, slot, interval_of, interval_in, apply, sends_at, grants_spaced,
}
use mcp_yandex_cloud_infra.RateLimit.Refinement.{
  answers_redis, answers_sqlite, redis_refines_sqlite,
}
use mcp_yandex_cloud_infra.RateLimit.Controller.{is_global, defer_rules, sqlite_backend}
use mcp_yandex_cloud_infra.Text.{ends_with}
use mcp_yandex_cloud_infra.RateLimit.Cooldown.{cooldown_is_specific}
use mcp_yandex_cloud_infra.Tests.Data.{table, server, rule}

abbrev orders : List RateRule
orders = rule "ozon:orders" 200 ∷ rule "ozon:global" 50 ∷ []

abbrev between : List (ℕ × Op)
between = (5, defer ("ozon:global" ∷ []) 30) ∷ (6, attempt orders) ∷ []

-- Two granted attempts, 205 ms apart on a key with an interval of 200 ms.
grants_spaced_example : ◌≤◌ 200 205
unfolding interval_in interval_of sends_at try_reserve_sqlite grant_at write_slots run apply
    defer_sqlite lookup insert
grants_spaced_example =
    grants_spaced table "ozon:orders" (0, attempt orders) (205, attempt orders) between [] 0 205 200
      200 refl refl refl refl

abbrev history : List (ℕ × Op)
history = (0, reserve orders) ∷ (3, attempt orders) ∷ (9, defer ("ozon:orders" ∷ []) 40) ∷ []

redis_refines_sqlite_example :
    answers_redis server table history [] ≡ answers_sqlite server table history []
unfolding lookup
redis_refines_sqlite_example =
    redis_refines_sqlite server table 0 history [] []
      (
        omega arith,
        (
          (omega arith, (omega arith, tt)),
          (omega arith, ((omega arith, (omega arith, tt)), (omega arith, (omega arith, tt)))),
        ),
      )
      (λ k later h. refl)

cooldown_is_specific_example :
    (12 + 30 ≤ slot table "ozon:orders" (defer_rules (sqlite_backend table) orders 30 12 []).0)
    × ((k : String)
        → ends_with ":global" k ≡ true
        → slot table k (defer_rules (sqlite_backend table) orders 30 12 []).0 ≡ slot table k [])
unfolding is_global ends_with
cooldown_is_specific_example =
    cooldown_is_specific table (rule "ozon:orders" 200) orders 30 12 [] (inl refl) (omega arith)
      refl (omega arith)
