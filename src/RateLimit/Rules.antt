-- ===== src/RateLimit/Rules.antt =====
-- app/core/rate_limit.py: `RateRule`, `parse_rate_limit`, `key_prefix`, `configured_global_rps` and
-- `build_rules`. A float is scaled: counts and periods are thousandths, rates are hundredths of a
-- request per second, intervals are whole milliseconds.
use Prim.Native.String.{◌++◌ as str_append}
use mcp_yandex_cloud_infra.Prelude.{
  ℕ, ◌*◌, ◌/◌, max, String, Bool, true, ◌&&◌, Option, none, some, List, [], ◌∷◌, ◌++◌, nat_beq,
  string_eq, ◌==◌, if◌then◌else◌,
}

pub record RateRule : Type 0 where
  pub key : String
  pub interval : ℕ

-- The alternatives of the unit group of `_RATE_RE`, in lower case.
pub data RateUnit : Type 0 where
  s sec second m min minute h hour : RateUnit

-- The groups of a match: `float(group(1))`, `float(group(2))` if it took part, `group(3).lower()`.
pub record RateMatch : Type 0 where
  pub count : ℕ
  pub period : Option ℕ
  pub unit : RateUnit

-- What the code calls outside itself: `str.lower`, `str.strip`, `str.join` over "|", the first 20
-- hex digits of SHA-256, `re.match` with `_RATE_RE`, `os.environ` and `float`.
pub record Builtins : Type 0 where
  pub lower : String → String
  pub strip : String → String
  pub sha256_20 : String → String
  pub rate_match : String → Option RateMatch
  pub environ : String → String
  pub float : String → Option ℕ

unfoldable pub unit_seconds : RateUnit → ℕ
unit_seconds s = 1
unit_seconds sec = 1
unit_seconds second = 1
unit_seconds m = 60
unit_seconds min = 60
unit_seconds minute = 60
unit_seconds h = 3600
unit_seconds hour = 3600

abbrev pub default_period : Option ℕ → ℕ
default_period none = 1000
default_period (some p) = p

-- `period * _UNIT_SECONDS[unit] / count`, in milliseconds.
unfoldable pub interval_of_match : RateMatch → Option ℕ
unfolding unit_seconds
interval_of_match r =
    let period = default_period r.period in
    if nat_beq r.count 0
    then none
    else if nat_beq period 0
    then none
    else some (period * unit_seconds r.unit * 1000 / r.count)

abbrev pub bind_option {ℓ κ} : {A : Type ℓ} {B : Type κ} → Option A → (A → Option B) → Option B
bind_option none f = none
bind_option (some a) f = f a

-- `{"wb": None, "ozon": 50.0, "ozon_perf": 10.0}.get(service, 5.0)`
unfoldable pub default_rps : String → Option ℕ
default_rps service =
    if service == "wb"
    then none
    else if service == "ozon"
    then some 5000
    else if service == "ozon_perf"
    then some 1000
    else some 500

unfoldable pub env_name : String → String
env_name service =
    if service == "wb"
    then "WB_GLOBAL_RPS"
    else if service == "ozon"
    then "OZON_GLOBAL_RPS"
    else if service == "ozon_perf"
    then "OZON_PERF_GLOBAL_RPS"
    else "MARKETPLACE_GLOBAL_RPS"

abbrev configured_or : Option ℕ → Option ℕ → Option ℕ
configured_or none default = default
configured_or (some v) default = some (max 1 v)

-- `[] if global_rps is None else [RateRule(f"{prefix}:global", 1.0 / global_rps)]`
abbrev global_rules : String → Option ℕ → List RateRule
global_rules prefix none = []
global_rules prefix (some rps) =
    record { key = str_append prefix ":global"; interval = 100000 / rps } ∷ []

abbrev no_operation : Option String → Bool
no_operation none = true
no_operation (some o) = o == ""

module _ (py : Builtins) where
  open py use {lower, strip, sha256_20, rate_match, environ, float}

  unfoldable pub parse_rate_limit : String → Option ℕ
  unfolding interval_of_match
  parse_rate_limit value = bind_option (rate_match value) interval_of_match

  unfoldable pub key_prefix : String → String → String
  key_prefix service cabinet_key =
      str_append "marketplace-rate:v1:"
        (str_append (strip (lower service)) (str_append ":" cabinet_key))

  unfoldable pub configured_global_rps : String → Option ℕ
  unfolding default_rps env_name
  configured_global_rps service =
      let name = strip (lower service) in
      let configured = strip (environ (env_name name)) in
      if configured == ""
      then default_rps name
      else configured_or (float configured) (default_rps name)

  abbrev group_name : String → String → String → String
  group_name host scope limit =
      str_append (lower host)
        (str_append "|" (str_append (lower scope) (str_append "|" (lower limit))))

  -- The rule of the endpoint: its catalog quota, or the pacing of an uncatalogued WB call.
  abbrev specific_rules : String → String → Option String → String → Option ℕ → List RateRule
  specific_rules prefix service operation_id group (some interval) =
      record {
        key = str_append prefix (str_append ":catalog:" (sha256_20 group));
        interval = interval;
      }
      ∷ []
  specific_rules prefix service operation_id group none =
      if service == "wb" && no_operation operation_id
      then record { key = str_append prefix ":raw"; interval = 1000 } ∷ []
      else []

  unfoldable pub build_rules :
      String → String → String → Option String → String → String → List RateRule
  unfolding key_prefix configured_global_rps parse_rate_limit
  build_rules service cabinet_key host operation_id scope catalog_rate_limit =
      let name = strip (lower service) in
      let prefix = key_prefix name cabinet_key in
      global_rules prefix (configured_global_rps name)
      ++ specific_rules prefix name operation_id (group_name host scope catalog_rate_limit)
          (parse_rate_limit catalog_rate_limit)
