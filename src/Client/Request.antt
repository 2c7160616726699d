-- ===== src/Client/Request.antt =====
-- app/core/client.py: the guards of `MarketplaceClient.request`, and the whole of it.
use Prim.Native.String.{◌++◌ as str_append}
use mcp_yandex_cloud_infra.Prelude.{
  String, Bool, true, false, ◌||◌, Option, none, some, List, [], ◌∷◌, keep_if, string_eq, ◌==◌,
  if◌then◌else◌,
}
use mcp_yandex_cloud_infra.Text.{append, drop_prefix, ends_with, before, strip_left, strip_right}
use mcp_yandex_cloud_infra.Dict.{Dict, lookup}
use mcp_yandex_cloud_infra.Errors.{make_error}
use mcp_yandex_cloud_infra.RateLimit.Rules.{Builtins, build_rules}
use mcp_yandex_cloud_infra.RateLimit.Controller.{Backend}
use mcp_yandex_cloud_infra.Client.Attempt.{Call, Net, Result, failure, Wire, attempts, max_retries}

-- The configuration of a service, and what the code calls outside itself: `repr`, `", ".join`,
-- `str.strip` and `str.lower`, SHA-256 in hex, the `sid` of a WB token, the JSON text of the
-- credentials, and what `build_rules` calls.
pub record Service : Type 0 where
  pub name : String
  pub scheme : String
  pub fields : List String
  pub allowed_host_suffixes : List String
  pub repr : String → String
  pub join : List String → String
  pub lower : String → String
  pub sha256 : String → String
  pub token_sid : String → Option String
  pub strip : String → String
  pub dumps : Dict String String → String
  pub builtins : Builtins

abbrev or_whole : Option String → String → String
or_whole none text = text
or_whole (some rest) text = rest

-- `if h.startswith(pre): h = h[len(pre):]`
abbrev without_prefix : String → String → String
without_prefix pre h = or_whole (drop_prefix pre h) h

-- The scheme and the slashes around a host are taken off.
unfoldable pub bare_host : String → String
unfolding drop_prefix strip_left strip_right
bare_host h =
    strip_right "/" (strip_left "/" (without_prefix "http://" (without_prefix "https://" h)))

-- The host that the allowlist is asked about.
unfoldable pub checked_host : Service → String → String
unfolding before bare_host
checked_host s host = before ":" (before "/" (bare_host (s.lower (s.strip host))))

-- The host part of the URL, and the URL.
unfoldable pub url_host : Service → String → String
unfolding bare_host
url_host s host = bare_host (s.strip host)

unfoldable pub url : Service → String → String → String
unfolding url_host
url s host path = append s.scheme (append "://" (append (url_host s host) path))

unfoldable pub any_suffix : String → List String → Bool
unfolding ends_with strip_left
any_suffix h [] = false
any_suffix h (suffix ∷ suffixes) =
    let bare = strip_left "." suffix in
    h == bare || (ends_with (append "." bare) h || any_suffix h suffixes)

abbrev pub is_nil : List String → Bool
is_nil [] = true
is_nil (x ∷ xs) = false

unfoldable pub host_allowed : Service → String → Bool
unfolding any_suffix checked_host
host_allowed s host =
    is_nil s.allowed_host_suffixes || any_suffix (checked_host s host) s.allowed_host_suffixes

-- `path.startswith("/")`
abbrev pub starts_with_slash : String → Bool
starts_with_slash String.[] = false
starts_with_slash (String.◌∷◌ c text) = String.◌∷◌ c String.[] == "/"

abbrev pub or_blank : Option String → String
or_blank none = ""
or_blank (some s) = s

abbrev pub text_at : String → Dict String String → String
text_at name creds = or_blank (lookup name creds)

-- The quota owner of the credentials, or the text of the ValueError.
pub data Quota : Type 0 where
  owner : String → Quota
  unknown_owner : String → Quota

abbrev wb_owner : Service → String → Quota
wb_owner s sid =
    if sid == ""
    then unknown_owner "WB seller quota identity is unavailable"
    else owner (s.sha256 (str_append "wb:seller:" sid))

abbrev ozon_owner : Service → String → Quota
ozon_owner s client_id =
    if client_id == ""
    then unknown_owner "Ozon Client-Id quota identity is unavailable"
    else owner (s.sha256 (str_append "ozon:client:" client_id))

unfoldable pub quota_key : Service → Dict String String → Quota
unfolding lookup
quota_key s creds =
    if s.name == "wb"
    then wb_owner s (or_blank (s.token_sid (text_at "token" creds)))
    else if s.name == "ozon"
    then ozon_owner s (s.strip (text_at "client_id" creds))
    else owner
        (s.sha256 (str_append s.name (str_append ":credentials:" (s.sha256 (s.dumps creds)))))

-- The names of the fields without a value.
unfoldable pub missing_fields : Service → Dict String String → List String
unfolding lookup
missing_fields s creds = keep_if (λ f. text_at f creds == "") s.fields

abbrev pub missing_error : Service → List String → Result
missing_error s missing = failure (
    make_error "auth"
      (str_append "Missing credentials for fields: " (
        str_append (s.join missing) (
          str_append ". Add a cabinet with " (
            str_append s.name (
              str_append "_add_cabinet, run install.py, or set the matching environment "
                "variables.")))))
      none none none false none none)

abbrev pub path_error : Service → Call → Result
path_error s c = failure (
    make_error "invalid_params"
      (str_append "path must be a string beginning with '/', got " (
        str_append (s.repr c.path) (
          str_append ". A path that does not start with '/' can smuggle a different host "
            "onto the URL — refused before sending.")))
      none c.operation_id (some c.path) false none none)

abbrev pub host_error : Service → String → Call → Result
host_error s host c = failure (
    make_error "forbidden"
      (str_append "Host " (
        str_append (s.repr host) (
          str_append " is not in the " (
            str_append s.name (
              str_append " allowlist (" (
                str_append (s.join s.allowed_host_suffixes) (
                  str_append "). Refused before sending so credentials never leave for an "
                    "untrusted host.")))))))
      none c.operation_id (some c.path) false none none)

module _ {backend : Backend} (wire : Wire) (s : Service) (c : Call) (host : String) where
  abbrev pub with_quota : Quota → Net backend → Net backend × Result
  with_quota (unknown_owner text) n =
      (n, failure (make_error "rate_limit" text none c.operation_id none false none none))
  with_quota (owner key) n =
      attempts wire
        (build_rules s.builtins s.name key host c.operation_id c.rate_scope c.rate_limit) c
        max_retries 0 n

  -- The stored credentials, unless the caller gives some; the stored ones must be whole.
  abbrev pub with_creds :
      Option (Dict String String) → Dict String String → Net backend → Net backend × Result
  with_creds (some creds) stored n = with_quota (quota_key s creds) n
  with_creds none stored n =
      let missing = missing_fields s stored in
      if is_nil missing then with_quota (quota_key s stored) n else (n, missing_error s missing)

  unfoldable pub request :
      Option (Dict String String) → Dict String String → Net backend → Net backend × Result
  unfolding host_allowed quota_key missing_fields attempts make_error
  request creds_override stored n =
      if starts_with_slash c.path
      then if host_allowed s host
        then with_creds creds_override stored n
        else (n, host_error s host c)
      else (n, path_error s c)
