-- ===== src/Client/Delay.antt =====
-- app/core/client.py: the delays, in milliseconds.
use mcp_yandex_cloud_infra.Prelude.{
  ℕ, zero, suc, ◌-◌, ◌*◌, max, String, Bool, Option, none, some, List, [], ◌∷◌, nat_eq, string_eq,
  ◌==◌, if◌then◌else◌,
}
use mcp_yandex_cloud_infra.RateLimit.Rules.{RateRule}
use mcp_yandex_cloud_infra.RateLimit.Controller.{is_global}

-- `float` on a header and `parsedate_to_datetime(...).timestamp()`, where they succeed.
pub record Headers : Type 0 where
  pub float : String → Option ℕ
  pub http_date : String → Option ℕ

-- The headers that the code reads, and the parts of the response that it passes on: `data` is
-- `_parse_body`, `details` is `_capped_details`, `short_body` is `_short_body`.
pub record Response (D : Type 0) : Type 0 where
  pub status : ℕ
  pub is_success : Bool
  pub retry_after : Option String
  pub wb_retry : Option String
  pub data_of : D
  pub details : D
  pub short_body : String

abbrev date_delay : ℕ → Option ℕ → Option ℕ
date_delay now none = none
date_delay now (some t) = some (t - now)

abbrev float_or_date : ℕ → Option ℕ → Option ℕ → Option ℕ
float_or_date now (some s) d = some s
float_or_date now none d = date_delay now d

unfoldable pub parse_retry_after : Headers → ℕ → Option String → Option ℕ
parse_retry_after h now none = none
parse_retry_after h now (some value) =
    if value == "" then none else float_or_date now (h.float value) (h.http_date value)

-- `max(valid) if valid else None`
abbrev pub later_of : Option ℕ → Option ℕ → Option ℕ
later_of none b = b
later_of (some a) none = some a
later_of (some a) (some b) = some (max a b)

unfoldable pub provider_retry_after : {D : Type 0} → Headers → ℕ → Response D → Option ℕ
unfolding parse_retry_after
provider_retry_after h now r =
    later_of (parse_retry_after h now r.retry_after) (parse_retry_after h now r.wb_retry)

abbrev pub power : ℕ → ℕ
power zero = 1
power (suc n) = 2 * power n

-- `BACKOFF_BASE * (2**attempt)`
unfoldable pub backoff : ℕ → ℕ
backoff attempt = 1500 * power attempt

abbrev or_backoff : ℕ → Option ℕ → ℕ
or_backoff attempt none = backoff attempt
or_backoff attempt (some d) = if d == 0 then backoff attempt else d

unfoldable pub marketplace_retry_delay : {D : Type 0} → Headers → ℕ → Response D → ℕ → ℕ
unfolding provider_retry_after
marketplace_retry_delay h now r attempt = or_backoff attempt (provider_retry_after h now r)

unfoldable pub known_quota_cooldown : List RateRule → ℕ
known_quota_cooldown [] = 0
known_quota_cooldown (r ∷ rules) =
    let rest = known_quota_cooldown rules in if is_global r then rest else max r.interval rest

abbrev explicit_or : ℕ → List RateRule → Option ℕ → ℕ
explicit_or attempt rules none = max (backoff attempt) (known_quota_cooldown rules)
explicit_or attempt rules (some d) = d

unfoldable pub cooldown_delay : {D : Type 0} → Headers → ℕ → Response D → ℕ → List RateRule → ℕ
unfolding provider_retry_after
cooldown_delay h now r attempt rules = explicit_or attempt rules (provider_retry_after h now r)
