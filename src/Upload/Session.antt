-- ===== src/Upload/Session.antt =====
-- app/core/archive_drive_resumable.py: the requests to a resumable upload session.
use mcp_yandex_cloud_infra.Prelude.{
  ℕ, ◌+◌, ◌-◌, ◌%◌, String, Bool, true, false, ◌&&◌, ◌||◌, not, Option, none, some, List, [], ◌∷◌,
  leb, ltb, string_eq, nat_eq, ◌==◌, if◌then◌else◌,
}
use mcp_yandex_cloud_infra.Json.{Json, arr, get, truthy, to_list}
use mcp_yandex_cloud_infra.Errors.{is_in}
use mcp_yandex_cloud_infra.Finance.Csv.{Library}
use mcp_yandex_cloud_infra.Upload.Remote.{
  Outcome, value, storage_error, Response, Remote, Put, ask_status, send_bytes, requested, Memory,
}
use mcp_yandex_cloud_infra.Upload.Act.{Act, ◌>>=◌, ◌>>◌, give, refuse, note, on_cloud}

abbrev pub chunk_granularity : ℕ
chunk_granularity = 262144

abbrev pub max_chunk_size : ℕ
max_chunk_size = 33554432

-- The check of `__init__` on the chunk size.
abbrev pub is_chunk_size : ℕ → Bool
is_chunk_size n =
    not (ltb n chunk_granularity || ltb max_chunk_size n || not (n % chunk_granularity == 0))

-- The answer of Drive on an upload: bytes it has, all of them with the id of the file, or a session
-- that is over.
pub data Progress : Type 0 where
  incomplete : ℕ → Progress
  complete_with : String → Progress
  expired : Progress

pub record UploadSession : Type 0 where
  pub uri : String
  pub file_id : String

abbrev pub is_ambiguous : ℕ → Bool
is_ambiguous n = n == 408 || n == 500 || n == 502 || n == 503 || n == 504

abbrev pub is_backoff_only : ℕ → Bool
is_backoff_only n = n == 425 || n == 429

abbrev https_port : Option ℕ → Bool
https_port none = true
https_port (some p) = p == 443

abbrev is_none : Option String → Bool
is_none none = true
is_none (some s) = false

-- The number of the last byte.
abbrev pub last_byte : ℕ → ℕ → ℕ → ℕ
last_byte offset total count =
    if leb total (offset + count - 1) then total - 1 else offset + count - 1

module _ {lib : Library} (r : Remote lib) where
  -- `str(item.get(name) or "")`
  abbrev pub text_of : Json → String
  text_of v = if truthy v then r.shown v else ""

  abbrev pub is_session_url : String → Bool
  is_session_url uri =
      let u = r.urlparse uri in
      u.scheme == "https"
      && u.hostname == "www.googleapis.com"
      && https_port u.port
      && is_none u.username
      && is_none u.password
      && r.starts_with "/upload/drive/" u.path

  unfoldable pub validate_session_uri : String → Act lib r.Cloud String
  validate_session_uri uri =
      if is_session_url (r.strip uri)
      then give (r.strip uri)
      else refuse "Invalid Google Drive resumable session URI" false 0

  -- `_request`: no response is an error that may be retried.
  abbrev pub response_or_error : Option Response → Act lib r.Cloud Response
  response_or_error none = refuse "Google Drive resumable request failed before a response" true 0
  response_or_error (some p) = give p

  abbrev pub answer_of : String → Put lib.Bytes → r.Cloud → Outcome (Option Response) × r.Cloud
  answer_of url body c = (value (r.put url body c).0, (r.put url body c).1)

  unfoldable pub request : String → Put lib.Bytes → Act lib r.Cloud Response
  unfolding validate_session_uri
  request session_uri body = do
    url ← validate_session_uri session_uri
    note (requested url body)
    p ← on_cloud (answer_of url body)
    response_or_error p

  abbrev pub range_offset : Option ℕ → Act lib r.Cloud ℕ
  range_offset none = refuse "Google Drive returned a malformed resumable Range header" true 0
  range_offset (some n) = give (n + 1)

  -- `bytes=0-n` is n + 1 bytes; no header is none.
  unfoldable pub confirmed_offset : Response → Act lib r.Cloud ℕ
  confirmed_offset p =
      if r.strip p.range_header == ""
      then give 0
      else range_offset (r.range_end (r.strip p.range_header))

  abbrev is_rate_limit_reason : Json → Bool
  is_rate_limit_reason item =
      is_in (text_of (get "reason" item)) ("rateLimitExceeded" ∷ "userRateLimitExceeded" ∷ [])

  any_reason : List Json → Bool
  any_reason [] = false
  any_reason (item ∷ items) = is_rate_limit_reason item || any_reason items

  abbrev any_of : Json → Bool
  any_of (arr items) = any_reason (to_list items)
  any_of _ = false

  abbrev limit_in_body : Option Json → Bool
  limit_in_body none = false
  limit_in_body (some body) = any_of (get "errors" (get "error" body))

  unfoldable pub is_rate_limit_403 : Response → Bool
  unfolding any_reason get
  is_rate_limit_403 p = p.status_code == 403 && limit_in_body p.body

  unfoldable pub retryable_response : Response → Bool
  unfolding is_rate_limit_403
  retryable_response p =
      is_ambiguous p.status_code || is_backoff_only p.status_code || is_rate_limit_403 p

  unfoldable pub session_must_restart : Response → Bool
  unfolding retryable_response
  session_must_restart p =
      leb 400 p.status_code && ltb p.status_code 500 && not (retryable_response p)

  -- The id in the JSON body of the last response.
  abbrev id_in_body : Option Json → String
  id_in_body none = ""
  id_in_body (some body) = text_of (get "id" body)

  abbrev pub is_done : Response → Bool
  is_done p = p.status_code == 200 || p.status_code == 201

  abbrev pub status_progress : Response → Act lib r.Cloud Progress
  status_progress p =
      if is_done p
      then give (complete_with (id_in_body p.body))
      else if p.status_code == 308
      then (do n ← confirmed_offset p; give (incomplete n))
      else if session_must_restart p
      then give expired
      else refuse "Google Drive resumable status failed" (retryable_response p) (r.retry_after p)

  unfoldable pub query_status : String → ℕ → Act lib r.Cloud Progress
  unfolding request confirmed_offset session_must_restart retryable_response
  query_status session_uri total = do p ← request session_uri (ask_status total); status_progress p

  abbrev pub chunk_progress : String → ℕ → Response → Act lib r.Cloud Progress
  chunk_progress session_uri total p =
      if is_done p
      then give (complete_with (id_in_body p.body))
      else if p.status_code == 308
      then (do n ← confirmed_offset p; give (incomplete n))
      else if is_ambiguous p.status_code
      then query_status session_uri total
      else if session_must_restart p
      then give expired
      else if is_backoff_only p.status_code || is_rate_limit_403 p
      then refuse "Google Drive resumable chunk throttled" true (r.retry_after p)
      else refuse "Google Drive resumable chunk failed" false 0

  -- `except ResumableUploadError`: the bytes may have arrived, so Drive is asked.
  abbrev pub after_chunk :
      String → ℕ → Outcome Response × Memory lib r.Cloud → Outcome Progress × Memory lib r.Cloud
  after_chunk session_uri total (value p, m) = chunk_progress session_uri total p m
  after_chunk session_uri total (storage_error e, m) =
      if e.retryable then query_status session_uri total m else (storage_error e, m)
  after_chunk session_uri total (Outcome.runtime_error e, m) = (Outcome.runtime_error e, m)

  unfoldable pub upload_chunk : String → ℕ → ℕ → lib.Bytes → Act lib r.Cloud Progress
  unfolding request query_status confirmed_offset session_must_restart
  upload_chunk session_uri offset total chunk m =
      let count = lib.size chunk in
      let end = last_byte offset total count in
      if count == 0
      then refuse "Refusing to upload an empty resumable chunk" false 0 m
      else if leb total offset
      then refuse "Invalid resumable chunk offset" false 0 m
      else if not (count == end - offset + 1)
      then refuse "Resumable chunk length exceeds declared file size" false 0 m
      else if not (end + 1 == total) && not (count % chunk_granularity == 0)
      then refuse "Non-final Drive chunk must be a multiple of 256 KiB" false 0 m
      else after_chunk session_uri total (request session_uri (send_bytes offset end total chunk) m)

  -- app/core/archive_google.py, `start_resumable_session`: the answer of the bridge.
  unfoldable pub start_resumable_session : String → String → ℕ → Act lib r.Cloud UploadSession
  start_resumable_session parent_id name total = do
    answer ← on_cloud (r.resumable_start parent_id name total)
    if r.strip answer.0 == ""
        then refuse "Google Drive Bridge v3 returned no resumable session URI" false 0
        else give (record { uri = r.strip answer.0; file_id = r.strip answer.1 })

  unfoldable pub start_session : String → String → ℕ → Act lib r.Cloud UploadSession
  unfolding validate_session_uri start_resumable_session
  start_session parent_id name total =
      if total == 0
      then refuse "Refusing to start a resumable session for an empty file" false 0
      else do
        opened ← start_resumable_session parent_id name total
        uri ← validate_session_uri opened.uri
        give (record { uri = uri; file_id = r.strip opened.file_id })
