-- ===== src/Tests/Client.antt =====
-- One call of the client, and one question to the coverage registry.
use mcp_yandex_cloud_infra.Prelude.{
  ◌+◌, ◌≡◌, refl, ◌≢◌, ◌↔◌, String, true, false, none, some, List, [], ◌∷◌, map, In, All, string_eq,
}
use mcp_yandex_cloud_infra.Dict.{Dict}
use mcp_yandex_cloud_infra.Json.{str}
use mcp_yandex_cloud_infra.Errors.{read_timeout}
use mcp_yandex_cloud_infra.RateLimit.Rules.{Builtins}
use mcp_yandex_cloud_infra.RateLimit.Controller.{sqlite_backend}
use mcp_yandex_cloud_infra.Client.Attempt.{Call, Net, Wire, broke}
use mcp_yandex_cloud_infra.Client.Request.{Service, host_allowed, url}
use mcp_yandex_cloud_infra.Finance.Csv.{Row}
use mcp_yandex_cloud_infra.Coverage.{
  CoverageLibrary, Coverage, committed, evaluate_coverage, merge_coverage_registry,
}
use mcp_yandex_cloud_infra.Coverage.Proof.{
  IsRecorded, IsCommitted, coverage_is_proved, only_complete-IsCommitted,
}
use mcp_yandex_cloud_infra.Tests.Data.{table}

abbrev wire : Wire
wire = record {
  answer = λ n. broke read_timeout;
  clock = λ n. 0;
  headers = record { float = λ s. none; http_date = λ s. none };
  name = "ozon";
  upper_name = "OZON";
  show = λ n. "0";
  unavailable = "down";
}

abbrev builtins : Builtins
builtins = record {
  lower = λ s. s;
  strip = λ s. s;
  sha256_20 = λ s. s;
  rate_match = λ s. none;
  environ = λ s. "";
  float = λ s. none;
}

abbrev service : Service
service = record {
  name = "ozon";
  scheme = "https";
  fields = "client_id" ∷ [];
  allowed_host_suffixes = ".ozon.ru" ∷ [];
  repr = λ s. s;
  join = λ ss. "";
  lower = λ h. h;
  sha256 = λ s. s;
  token_sid = λ t. none;
  strip = λ s. s;
  dumps = λ d. "";
  builtins = builtins;
}

abbrev create : Call
create = record {
  verb = "POST";
  path = "/v1/create";
  operation_id = some "create";
  rate_limit = "";
  rate_scope = "";
  rate_limit_preacquired = false;
  retry_on_transport = true;
  retry_on_429 = true;
}

abbrev idle : Net (sqlite_backend table)
idle = record { limiter = []; sent = 0; slept = 0 }

abbrev creds : Dict String String
creds = ("client_id", "7") ∷ []

-- What the allowlist is asked about is the part before the colon; the URL has the rest as well, so
-- that it names the user `api-seller.ozon.ru` at another host.
user_of_url : host_allowed service "api-seller.ozon.ru:x@evil.com" ≡ true
unfolding host_allowed
user_of_url = refl

url_of_user :
    url service "api-seller.ozon.ru:x@evil.com" "/v1/create"
    ≡ "https://api-seller.ozon.ru:x@evil.com/v1/create"
unfolding url
url_of_user = refl

abbrev zip : List String → List String → Row
zip [] cells = []
zip (name ∷ names) [] = []
zip (name ∷ names) (c ∷ cells) = (name, str c) ∷ zip names cells

abbrev plain : CoverageLibrary
plain = record {
  Bytes = List Row;
  is_blank = λ b. false;
  read = λ b. b;
  write = λ names rows. map (zip names) rows;
  show = λ v. "";
}

abbrev done_request : Row
done_request =
    ("marketplace", str "wb")
    ∷ ("cabinet", str "A")
    ∷ ("dataset", str "orders")
    ∷ ("request_key", str "k")
    ∷ ("quality_status", str "PASS")
    ∷ ("status", str "COMPLETE")
    ∷ []

abbrev answer : Coverage
answer = evaluate_coverage plain ("k" ∷ "k" ∷ []) (some (done_request ∷ [])) "wb" "A" "orders" true

coverage_is_proved_example :
    ((answer.safe_for_archive_only_query ≡ true) ↔ (
      (true ≡ true)
      × ((k : String) × (In k ("k" ∷ "k" ∷ []) × (k ≢ "")))
      × ((k : String)
          → In k ("k" ∷ "k" ∷ [])
          → k ≢ ""
          → IsRecorded plain "wb" "A" "orders" (some (done_request ∷ [])) k)))
    × (answer.complete_requests + answer.missing_requests ≡ answer.expected_requests)
coverage_is_proved_example =
    coverage_is_proved plain ("k" ∷ "k" ∷ []) (some (done_request ∷ [])) "wb" "A" "orders" true

only_complete-IsCommitted_example :
    ((b : List Row) × (merge_coverage_registry plain none (done_request ∷ []) ≡ committed b))
    ↔ All (IsCommitted plain) (done_request ∷ [])
only_complete-IsCommitted_example = only_complete-IsCommitted plain none (done_request ∷ [])
