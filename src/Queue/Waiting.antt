-- ===== src/Queue/Waiting.antt =====
-- app/core/archive_queue.py: `_retry_after`, `_is_rate_limited` and `_wait_or_fail`.
use mcp_yandex_cloud_infra.Prelude.{
  ℕ, ◌+◌, ◌/◌, max, String, Bool, true, false, ◌||◌, none, some, nat_eq, string_eq, ◌==◌,
  if◌then◌else◌,
}
use mcp_yandex_cloud_infra.Finance.Csv.{Library}
use mcp_yandex_cloud_infra.Queue.State.{
  Job, Payload, World, Step, Clock, waiting_rate_limit, waiting_retry, failed, requeue, close,
}

unfoldable pub retry_after : Payload → ℕ
retry_after p = if p.retry_after_seconds == 0 then p.retry_after_sec else p.retry_after_seconds

unfoldable pub is_rate_limited : Payload → Bool
is_rate_limited p =
    p.error_type == "rate_limit"
    || ((p.error == "rate_limit" || p.error == "rate_limit_busy") || p.code == 429)

-- `retry or default`
abbrev pub or_default : ℕ → ℕ → ℕ
or_default n default = if n == 0 then default else n

-- `math.ceil` of milliseconds in seconds.
abbrev pub ceil_seconds : ℕ → ℕ
ceil_seconds ms = (ms + 999) / 1000

-- `str(message or error or payload)[:1000]`; `cut` is `[:1000]`.
abbrev pub error_text : (String → String) → Payload → String
error_text cut p =
    cut (if p.message == "" then if p.error == "" then p.shown else p.error else p.message)

-- What `_wait_or_fail` makes of a payload: the job goes on (with one more call counted), or the step
-- ends here.
pub data Handled (lib : Library) : Type 0 where
  go_on : Job → Handled lib
  ended : Step lib → Handled lib

module _ {lib : Library} where
  unfoldable pub wait_or_fail :
      (String → String) → Clock → Payload → String → Job → World lib → Handled lib
  unfolding retry_after is_rate_limited
  wait_or_fail cut clock p action j w =
      let limited = max 1000 (or_default (retry_after p) 1000) in
      let later = max 5000 (or_default (retry_after p) 15000) in
      let text = error_text cut p in
      if p.ok
      then go_on (record j { provider_calls = j.provider_calls + 1 })
      else if is_rate_limited p
      then ended (
          requeue clock
            (record j {
              status = waiting_rate_limit;
              last_retry_after = limited;
              last_error = none;
            })
            limited
            (record {
              ok = true;
              status = some waiting_rate_limit;
              action = "waiting_rate_limit";
              retry_after = ceil_seconds limited;
              error = none;
            })
            w)
      else if p.retryable
      then ended (
          requeue clock
            (record j { status = waiting_retry; last_retry_after = later; last_error = some text })
            later
            (record {
              ok = true;
              status = some waiting_retry;
              action = "waiting_retry";
              retry_after = ceil_seconds later;
              error = some text;
            })
            w)
      else ended (
          close clock (record j { status = failed; last_error = some text })
            (record {
              ok = false;
              status = some failed;
              action = action;
              retry_after = 0;
              error = some text;
            })
            w)
