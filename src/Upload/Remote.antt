-- ===== src/Upload/Remote.antt =====
-- What an upload step works on: the cloud behind the bridge and the object store, which are outside
-- of this code, the job's stores, and the two kinds of error.
use mcp_yandex_cloud_infra.Prelude.{ℕ, String, Bool, Option, List, string_eq}
use mcp_yandex_cloud_infra.Json.{Json}
use mcp_yandex_cloud_infra.Finance.Csv.{Library}
use mcp_yandex_cloud_infra.Queue.State.{Job, Finalize, World}

-- `ResumableUploadError` and `ArchiveStorageError`; the delay is milliseconds.
pub record Failure : Type 0 where
  pub message : String
  pub retryable : Bool
  pub retry_after : ℕ

-- What an operation gives: a value, one of the two storage errors, or an exception that the step
-- does not catch, such as a `RuntimeError`.
pub data Outcome (A : Type 0) : Type 0 where
  value : A → Outcome A
  storage_error : Failure → Outcome A
  runtime_error : String → Outcome A

-- A response of the upload session; `body` is none where it is no JSON.
pub record Response : Type 0 where
  pub status_code : ℕ
  pub range_header : String
  pub body : Option Json

-- `urllib.parse.urlparse`
pub record Url : Type 0 where
  pub scheme : String
  pub hostname : String
  pub port : Option ℕ
  pub username : Option String
  pub password : Option String
  pub path : String

-- The metadata of a Drive file; a missing hash is "".
pub record Meta : Type 0 where
  pub id : String
  pub name : String
  pub size : Option ℕ
  pub sha256_checksum : String

-- The request of the bridge's `promote_verified`, and its answer.
pub record Promotion : Type 0 where
  pub parent_id : String
  pub file_id : String
  pub staging_name : String
  pub canonical_name : String
  pub expected_bytes : ℕ
  pub expected_sha256 : String
  pub previous_file_id : String

pub record Promoted : Type 0 where
  pub file : Meta
  pub previous_file_trashed : Bool

-- A request to the upload session: the status query, or bytes from an offset up to a last one.
pub data Put (Bytes : Type 0) : Type 0 where
  ask_status : ℕ → Put Bytes
  send_bytes : ℕ → ℕ → ℕ → Bytes → Put Bytes

-- A request to the object store: HEAD, GET, GET of a range, PUT.
pub data StoreCall : Type 0 where
  head_object get_object put_object : String → StoreCall
  get_range : String → ℕ → ℕ → StoreCall

-- Code that is outside: the cloud's own state with the requests it answers, and the libraries for
-- URLs, texts and headers. `put` is none where no response came; `store` says whether
-- the object store did what a request asks; `listed_size` is the size that the object store reports of an object.
pub record Remote (lib : Library) : Type 1 where
  pub Cloud : Type 0
  pub put : String → Put lib.Bytes → Cloud → Option Response × Cloud
  pub drive_folder : List String → Cloud → Outcome String × Cloud
  pub find_child : String → String → Cloud → Outcome (Option String) × Cloud
  pub metadata : String → Cloud → Outcome Meta × Cloud
  pub resumable_start : String → String → ℕ → Cloud → Outcome (String × String) × Cloud
  pub promote_verified : Promotion → Cloud → Outcome Promoted × Cloud
  pub store : StoreCall → Cloud → Outcome (Unit {0}) × Cloud
  pub listed_size : lib.Bytes → Option ℕ
  pub slice : ℕ → ℕ → lib.Bytes → lib.Bytes
  pub urlparse : String → Url
  pub strip : String → String
  pub lower : String → String
  pub starts_with : String → String → Bool
  pub shown : Json → String
  pub first_twelve : String → String
  pub first_thousand : String → String
  pub range_end : String → Option ℕ
  pub retry_after : Response → ℕ
  pub digest_byte : String → ℕ → ℕ
  pub correlation_id : String → ℕ → String

-- What was exchanged with Drive and with the object store: requests to the upload session, answers
-- on a file's metadata, backups written and promotions asked for. A log has the newest first.
pub data Exchange (Bytes : Type 0) : Type 0 where
  requested : String → Put Bytes → Exchange Bytes
  described : String → Meta → Exchange Bytes
  mirrored : Bytes → Exchange Bytes
  promotion_sent : Promotion → Exchange Bytes

-- `finalize` is the dict that the step changes, `job` the other entries of the state.
pub record Memory (lib : Library) (Cloud : Type 0) : Type 0 where
  pub cloud : Cloud
  pub world : World lib
  pub job : Job
  pub finalize : Finalize
  pub log : List (Exchange lib.Bytes)
