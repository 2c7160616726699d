-- ===== src/Upload/Chunk.antt =====
-- app/core/archive_resumable_worker.py: `_retry_delay`, and the chunk of `_upload_step`.
use mcp_yandex_cloud_infra.Prelude.{
  ℕ, ◌+◌, ◌-◌, ◌*◌, ◌%◌, ◌^◌, min, String, false, not, Option, none, some, [], ◌∷◌, leb, ltb,
  string_eq, nat_eq, pair_eq, ◌==◌, if◌then◌else◌,
}
use mcp_yandex_cloud_infra.Dict.{lookup}
use mcp_yandex_cloud_infra.Json.{Json, num, str}
use mcp_yandex_cloud_infra.Finance.Csv.{Library}
use mcp_yandex_cloud_infra.Queue.State.{Upload, no_upload, Clock, Reply, reply, queued}
use mcp_yandex_cloud_infra.Upload.Remote.{Remote, Memory, value, get_range}
use mcp_yandex_cloud_infra.Upload.Act.{
  Act, ◌>>=◌, ◌>>◌, give, refuse, fail_with, read, change, on_cloud,
}
use mcp_yandex_cloud_infra.Upload.Session.{
  Progress, incomplete, complete_with, expired, query_status, upload_chunk,
}
use mcp_yandex_cloud_infra.Upload.Record.{
  with_status, set_upload, sync, event, set_status, save_state, schedule_job,
}
use mcp_yandex_cloud_infra.Upload.Finish.{Target, finish_staged_upload}

-- Truncated exponential backoff with a jitter of at most five seconds.
unfoldable pub retry_delay : (String → ℕ → ℕ) → String → ℕ → ℕ
retry_delay digest_byte job_id retry_count =
    let base = min 300 (5 * 2 ^ min (retry_count - 1) 6) in
    min 300 (base + digest_byte job_id retry_count % 6)

-- `{"previous_canonical_file_id": previous} if previous else {}`
abbrev pub only_previous : Upload → Upload
only_previous u = record no_upload { previous_canonical_file_id = u.previous_canonical_file_id }

abbrev pub canonical_state : Upload → Json
canonical_state u = str (if u.promotion_attempted then "recheck_required" else "untouched")

module _ {lib : Library} (r : Remote lib) (clock : Clock) where
  -- `state["status"] = "QUEUED"`
  abbrev pub queued_again : Memory lib r.Cloud → Memory lib r.Cloud
  queued_again m = with_status r queued m.job.last_error m

  abbrev pub reply_now : String → Act lib r.Cloud Reply
  reply_now action m = (value (reply m.job.status action), m)

  unfoldable pub go_on_later : String → Act lib r.Cloud Reply
  go_on_later action = do save_state r clock; schedule_job r clock 0; reply_now action

  -- The session is over: another one is opened in the next step.
  abbrev pub restart_session : Upload → Act lib r.Cloud Reply
  restart_session u = do
    set_upload r (only_previous u)
    change queued_again
    go_on_later "drive_resumable_session_restarted"

  -- The same after a chunk.
  abbrev pub restart_after_chunk : Upload → Act lib r.Cloud Reply
  restart_after_chunk u = do
    set_upload r (only_previous u)
    set_status r queued none
    go_on_later "drive_resumable_session_restarted"

  abbrev pub confirm_chunk : Target → Upload → ℕ → Act lib r.Cloud Reply
  confirm_chunk t u confirmed =
      if ltb t.expected_bytes confirmed
      then fail_with "Drive returned an invalid confirmed upload offset"
      else do
        set_upload r (record u { offset = confirmed; retry_count = 0 })
        sync r (some t.candidate_id)
        event r clock "RESUMABLE_CHUNK_CONFIRMED"
            (("staging_file_id", str u.target_file_id) ∷ ("resumable_offset", num confirmed) ∷ [])
        set_status r queued none
        go_on_later "drive_resumable_chunk_uploaded"

  abbrev pub after_upload : Target → Upload → Progress → Act lib r.Cloud Reply
  after_upload t u expired = restart_after_chunk u
  after_upload t u (complete_with id) = finish_staged_upload r clock t id
  after_upload t u (incomplete n) = confirm_chunk t u n

  abbrev pub range_of : ℕ → ℕ → Option lib.Bytes → Act lib r.Cloud lib.Bytes
  range_of start end none = refuse "Yandex Object Storage GET failed with HTTP 404" false 0
  range_of start end (some file) = give (r.slice start end file)

  -- `_read_yandex_range`
  unfoldable pub read_yandex_range : String → ℕ → ℕ → Act lib r.Cloud lib.Bytes
  unfolding lookup
  read_yandex_range file_id start end = do
    on_cloud (r.store (get_range file_id start end))
    m ← read
    range_of start end (lookup m.job.job_id m.world.candidates)

  -- One chunk, from the offset that Drive confirmed.
  unfoldable pub send_chunk : Target → ℕ → Upload → Act lib r.Cloud Reply
  unfolding read_yandex_range upload_chunk finish_staged_upload go_on_later
  send_chunk t chunk_size u = do
    let end = min t.expected_bytes (u.offset + chunk_size)
    chunk ← read_yandex_range t.candidate_id u.offset end
    if not (lib.size chunk == end - u.offset)
        then fail_with "Yandex candidate range returned an unexpected byte count"
        else do p ← upload_chunk r u.session_uri u.offset t.expected_bytes chunk; after_upload t u p

  -- All bytes are confirmed, but the last answer was lost.
  abbrev pub after_last_query : Target → Upload → Progress → Act lib r.Cloud Reply
  after_last_query t u expired = restart_session u
  after_last_query t u (complete_with id) = finish_staged_upload r clock t id
  after_last_query t u (incomplete n) = do
    set_upload r (record u { offset = n })
    go_on_later "drive_resumable_offset_rewound"

  unfoldable pub continue_upload : Target → ℕ → Upload → Act lib r.Cloud Reply
  unfolding send_chunk query_status finish_staged_upload go_on_later
  continue_upload t chunk_size u =
      if leb t.expected_bytes u.offset
      then (do p ← query_status r u.session_uri t.expected_bytes; after_last_query t u p)
      else send_chunk t chunk_size u
