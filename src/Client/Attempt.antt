-- ===== src/Client/Attempt.antt =====
-- app/core/client.py: the `while True` loop of `MarketplaceClient.request`.
use Prim.Native.String.{◌++◌ as str_append}
use mcp_yandex_cloud_infra.Prelude.{
  ℕ, zero, suc, ◌+◌, min, String, Bool, true, false, ◌&&◌, ◌||◌, Option, none, some, List, nat_eq,
  string_eq, ◌==◌, if◌then◌else◌,
}
use mcp_yandex_cloud_infra.Errors.{
  Envelope, make_error, classify_status, TransportError, connect_timeout, read_timeout,
  write_timeout, pool_timeout, connect_error, error_from_exception,
}
use mcp_yandex_cloud_infra.Json.{Json}
use mcp_yandex_cloud_infra.RateLimit.Rules.{RateRule}
use mcp_yandex_cloud_infra.RateLimit.Controller.{Backend, try_acquire, defer_rules}
use mcp_yandex_cloud_infra.Client.Delay.{
  Headers, Response, marketplace_retry_delay, cooldown_delay, backoff, parse_retry_after,
}

-- What one HTTP request ends in.
pub data Answer : Type 0 where
  responded : Response Json → Answer
  broke : TransportError → Answer

pub data Result : Type 0 where
  success : ℕ → Json → Result
  failure : Envelope → Result

-- The arguments of `request` but the host and the credentials. `verb` is `method.upper()`.
pub record Call : Type 0 where
  pub verb : String
  pub path : String
  pub operation_id : Option String
  pub rate_limit : String
  pub rate_scope : String
  pub rate_limit_preacquired : Bool
  pub retry_on_transport : Bool
  pub retry_on_429 : Bool

-- The limiter's state, the number of requests sent, and the time slept.
pub record Net (backend : Backend) : Type 0 where
  pub limiter : backend.State
  pub sent : ℕ
  pub slept : ℕ

-- What the loop calls: the answer of the n-th request, the time before it, header parsing, the
-- service's name in upper and lower case, and the texts of an unavailable limiter.
pub record Wire : Type 0 where
  pub answer : ℕ → Answer
  pub clock : ℕ → ℕ
  pub headers : Headers
  pub name : String
  pub upper_name : String
  pub show : ℕ → String
  pub unavailable : String

abbrev pub max_retries : ℕ
max_retries = 4

-- Failures before the request reached the server.
abbrev pub is_connect_phase : TransportError → Bool
is_connect_phase connect_error = true
is_connect_phase connect_timeout = true
is_connect_phase pool_timeout = true
is_connect_phase _ = false

abbrev pub is_read_phase : TransportError → Bool
is_read_phase read_timeout = true
is_read_phase write_timeout = true
is_read_phase _ = false

abbrev pub is_safe_verb : String → Bool
is_safe_verb verb = verb == "GET" || verb == "HEAD"

unfoldable pub may_retry : Call → ℕ → TransportError → Bool
may_retry c zero exc = false
may_retry c (suc left) exc =
    c.retry_on_transport && (is_connect_phase exc || (is_read_phase exc && is_safe_verb c.verb))

abbrev pub unavailable_text : String
unavailable_text = "Global request controller unavailable; HTTP request was not sent: "

abbrev pub limited_text : String
limited_text =
    str_append "Request is locally rate-limited; retry after the reported "
      "delay. No future slot was reserved and the HTTP request was not sent."

abbrev pub not_stored_text : String
not_stored_text = "Marketplace returned 429 and the shared cooldown could not be stored: "

abbrev pub stored_text : String
stored_text =
    str_append "Marketplace returned 429. Shared cooldown was stored; retry "
      "after the reported delay instead of waiting inside this MCP call."

abbrev refuse : Call → String → Bool → Option ℕ → Option ℕ → Option Json → Result
refuse c text retryable code delay details =
    failure (make_error "rate_limit" text code c.operation_id (some c.path) retryable delay details)

abbrev expired_note : Wire → String → String
expired_note wire error_type =
    if error_type == "auth"
    then str_append " — the key may be expired or revoked. Rotate it: "
        (str_append wire.name "_set_key (chat) or re-run the installer.")
    else ""

abbrev status_error : Wire → Call → ℕ → ℕ → Response Json → Result
status_error wire c now attempt r =
    let (error_type, retryable) = classify_status r.status in
    let head = str_append wire.upper_name (
      str_append " API returned "
        (str_append (wire.show r.status) (str_append ": " r.short_body))) in
    failure (
      make_error error_type (str_append head (expired_note wire error_type)) (some r.status)
        c.operation_id (some c.path) retryable
        (if r.status == 429
          then some (marketplace_retry_delay wire.headers now r attempt)
          else parse_retry_after wire.headers now r.retry_after)
        (some r.details))

module _ {backend : Backend} (wire : Wire) (rules : List RateRule) (c : Call) where
  -- The cooldown after a 429: stored, or not.
  abbrev pub deferred :
      ℕ → Response Json → backend.State × Option (Unit {0}) → Net backend → Net backend × Result
  deferred delay r (s, none) n = (
    record n { limiter = s },
    refuse c (str_append not_stored_text wire.unavailable) true (some 429) (some delay) none,
  )
  deferred delay r (s, some _) n =
      (record n { limiter = s }, refuse c stored_text true (some 429) (some delay) (some r.details))

  -- What is made of an answer; `again` is the rest of the loop.
  abbrev pub on_answer :
      ℕ → ℕ → ℕ → Answer → Net backend → (Net backend → Net backend × Result) → Net backend × Result
  on_answer now left attempt (broke exc) n again =
      if may_retry c left exc
      then again (record n { slept = n.slept + backoff attempt })
      else (n, failure (error_from_exception exc c.operation_id (some c.path)))
  on_answer now left attempt (responded r) n again =
      let delay = min (cooldown_delay wire.headers now r attempt rules) 3600000 in
      if r.status == 429 && c.retry_on_429
      then deferred delay r (defer_rules backend rules delay now n.limiter) n
      else if r.is_success
      then (n, success r.status r.data_of)
      else (n, status_error wire c now attempt r)

  abbrev pub send :
      ℕ → ℕ → ℕ → Net backend → (Net backend → Net backend × Result) → Net backend × Result
  send now left attempt n again =
      on_answer now left attempt (wire.answer n.sent) (record n { sent = n.sent + 1 }) again

  -- The request is sent if the limiter grants a slot.
  abbrev pub if_granted :
      ℕ
      → ℕ
      → ℕ
      → backend.State × Option (Bool × ℕ)
      → Net backend
      → (Net backend → Net backend × Result)
      → Net backend × Result
  if_granted now left attempt (s, none) n again = (
    record n { limiter = s },
    refuse c (str_append unavailable_text wire.unavailable) true none none none,
  )
  if_granted now left attempt (s, some (false, delay)) n again =
      (record n { limiter = s }, refuse c limited_text true none (some delay) none)
  if_granted now left attempt (s, some (true, delay)) n again =
      send now left attempt (record n { limiter = s }) again

  abbrev pub round :
      ℕ → ℕ → Net backend → (Net backend → Net backend × Result) → Net backend × Result
  round left attempt n again =
      let now = wire.clock n.sent in
      if c.rate_limit_preacquired
      then send now left attempt n again
      else if_granted now left attempt (try_acquire backend rules now n.limiter) n again

  -- `left` is `MAX_RETRIES - attempt`; at 0 the loop does not go on.
  unfoldable pub attempts : ℕ → ℕ → Net backend → Net backend × Result
  unfolding may_retry make_error classify_status error_from_exception try_acquire defer_rules
      marketplace_retry_delay cooldown_delay backoff parse_retry_after
  attempts zero attempt n =
      round zero attempt n
        (λ m. (m, failure (make_error "unknown" "" none none none false none none)))
  attempts (suc left) attempt n = round (suc left) attempt n (λ m. attempts left (attempt + 1) m)
