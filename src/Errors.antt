-- ===== src/Errors.antt =====
-- app/core/errors.py: the canonical error envelope, and the classification of HTTP statuses and
-- transport exceptions.
pub mod Classes
use Prim.Native.String.{◌++◌ as str_append}
use mcp_yandex_cloud_infra.Prelude.{
  ℕ, String, Bool, true, false, ◌||◌, ◌&&◌, ◌≡◌, ◌↔◌, In, arith, streq_iff, Option, none, some,
  List, [], ◌∷◌, nat_beq, ltb, leb, string_eq, ◌==◌, if◌then◌else◌,
}
use mcp_yandex_cloud_infra.Json.{Json}

abbrev pub error_types : List String
error_types =
    "auth" ∷ "forbidden" ∷ "not_found" ∷ "invalid_params" ∷ "rate_limit" ∷ "conflict"
    ∷ "server_error" ∷ "timeout" ∷ "network" ∷ "safety_gate" ∷ "seller_known_but_not_configured"
    ∷ "source_not_suitable" ∷ "execution_pending" ∷ "provider_data_conflict" ∷ "coverage_gap"
    ∷ "unknown" ∷ []

-- `x in xs`
abbrev pub is_in : String → List String → Bool
is_in x [] = false
is_in x (y ∷ ys) = y == x || is_in x ys

pub is_in_iff : (k : String) (xs : List String) → (is_in k xs ≡ true) ↔ In k xs
is_in_iff k [] = (λ h. cc h, λ m. absurd m)
is_in_iff k (x ∷ xs) = ground (arith, streq_iff x k, is_in_iff k xs)

-- The dict of an error; a key that is left out is `none`. `"ok": False` goes with the type.
pub record Envelope : Type 0 where
  pub error_type : String
  pub message : String
  pub retryable : Bool
  pub code : Option ℕ
  pub operation_id : Option String
  pub endpoint : Option String
  pub retry_after : Option ℕ
  pub details : Option Json

-- `if value:` on an optional text.
abbrev pub nonempty : Option String → Option String
nonempty none = none
nonempty (some s) = if s == "" then none else some s

unfoldable pub make_error :
    String
    → String
    → Option ℕ
    → Option String
    → Option String
    → Bool
    → Option ℕ
    → Option Json
    → Envelope
make_error error_type message code operation_id endpoint retryable retry_after details = record {
  error_type = if is_in error_type error_types then error_type else "unknown";
  message = message;
  retryable = retryable;
  code = code;
  operation_id = nonempty operation_id;
  endpoint = nonempty endpoint;
  retry_after = retry_after;
  details = details;
}

unfoldable pub classify_status : ℕ → String × Bool
classify_status status =
    if nat_beq status 401
    then ("auth", false)
    else if nat_beq status 403
    then ("forbidden", false)
    else if nat_beq status 404
    then ("not_found", false)
    else if nat_beq status 409
    then ("conflict", false)
    else if nat_beq status 429
    then ("rate_limit", true)
    else if leb 500 status && ltb status 600
    then ("server_error", true)
    else if leb 400 status && ltb status 500
    then ("invalid_params", false)
    else ("unknown", false)

-- The classes of httpx exceptions that the code tells apart. The four timeouts are
-- `TimeoutException`s; `other` carries `type(exc).__name__` and `str(exc)`.
pub data TransportError : Type 0 where
  connect_timeout read_timeout write_timeout pool_timeout : TransportError
  connect_error : TransportError
  other : String → String → TransportError

abbrev pub timeout_message : String
timeout_message = "Request timed out. The marketplace did not respond in time; retry shortly."

abbrev pub network_message : String
network_message =
    str_append "Could not connect to the marketplace host. Check network/region access "
      "(WB and Ozon block many non-RU IPs)."

abbrev timed_out : Option String → Option String → Envelope
timed_out operation_id endpoint =
    make_error "timeout" timeout_message none operation_id endpoint true none none

unfoldable pub error_from_exception : TransportError → Option String → Option String → Envelope
unfolding make_error
error_from_exception connect_timeout op ep = timed_out op ep
error_from_exception read_timeout op ep = timed_out op ep
error_from_exception write_timeout op ep = timed_out op ep
error_from_exception pool_timeout op ep = timed_out op ep
error_from_exception connect_error op ep =
    make_error "network" network_message none op ep true none none
error_from_exception (other name text) op ep =
    make_error "unknown" (str_append "Unexpected error: " (str_append name (str_append ": " text)))
      none op ep false none none
