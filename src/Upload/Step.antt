-- ===== src/Upload/Step.antt =====
-- app/core/archive_resumable_worker.py: `_upload_step`.
use Prim.Native.String.{◌++◌ as str_append, count}
use mcp_yandex_cloud_infra.Prelude.{
  ℕ, ◌+◌, ◌*◌, max, String, Bool, true, false, ◌&&◌, not, Option, none, some, [], ◌∷◌, ltb,
  string_eq, nat_eq, pair_eq, ◌==◌, if◌then◌else◌,
}
use mcp_yandex_cloud_infra.Dict.{lookup}
use mcp_yandex_cloud_infra.Json.{num, str}
use mcp_yandex_cloud_infra.Finance.Csv.{Library}
use mcp_yandex_cloud_infra.Queue.State.{
  Job, Finalize, Upload, no_upload, Clock, Reply, reply, queued, failed, waiting_retry,
  waiting_configuration,
}
use mcp_yandex_cloud_infra.Queue.Waiting.{ceil_seconds}
use mcp_yandex_cloud_infra.Queue.Finalize.{Ids}
use mcp_yandex_cloud_infra.Upload.Remote.{
  Remote, Memory, Failure, Outcome, value, storage_error, runtime_error, head_object,
}
use mcp_yandex_cloud_infra.Upload.Act.{Act, ◌>>=◌, ◌>>◌, give, fail_with, read, change, on_cloud}
use mcp_yandex_cloud_infra.Upload.Session.{
  Progress, incomplete, complete_with, expired, UploadSession, query_status, start_session,
}
use mcp_yandex_cloud_infra.Upload.Promote.{file_metadata}
use mcp_yandex_cloud_infra.Upload.Record.{
  with_upload, set_upload, sync, event, set_status, save_state, schedule_job, unschedule_job,
}
use mcp_yandex_cloud_infra.Upload.Finish.{
  Target, id_or_blank, size_agrees, metadata_matches, finish_staged_upload,
  verify_candidate_and_backup, mark_commit_ready,
}
use mcp_yandex_cloud_infra.Upload.Chunk.{
  go_on_later, only_previous, continue_upload, retry_delay, canonical_state,
}

module _ {lib : Library} (r : Remote lib) (clock : Clock) where
  abbrev pub new_upload : Target → ℕ → String → UploadSession → Upload
  new_upload t chunk_size previous s = record no_upload {
    session_uri = s.uri;
    target_file_id = s.file_id;
    chunk_bytes = chunk_size;
    staging_name = t.staging_name;
    previous_canonical_file_id = previous;
  }

  abbrev pub open_session : Target → ℕ → String → String → Act lib r.Cloud Reply
  open_session t chunk_size parent previous = do
    s ← start_session r parent t.staging_name t.expected_bytes
    set_upload r (new_upload t chunk_size previous s)
    sync r (some t.candidate_id)
    event r clock "RESUMABLE_SESSION_STARTED" (
        ("staging_file_id", str s.file_id)
        ∷ ("previous_canonical_file_id", str previous)
        ∷ ("resumable_offset", num 0)
        ∷ [])
    set_status r queued none
    go_on_later r clock "drive_resumable_session_started"

  -- Whether the file is there with the recorded size and hash.
  abbrev pub file_is_exact : Target → String → Act lib r.Cloud Bool
  file_is_exact t id = if id == "" then give false else do
    meta ← file_metadata r id
    give (metadata_matches r meta t.expected_bytes t.expected_sha)

  -- The canonical file is exact already: it was promoted, and the answer was lost.
  abbrev pub already_promoted : Target → String → Act lib r.Cloud Reply
  already_promoted t file_id = do
    verify_candidate_and_backup r t
    mark_commit_ready r clock file_id t "report_annual_already_promoted"

  abbrev pub recovered_upload : Target → ℕ → String → String → Upload
  recovered_upload t chunk_size previous staged = record no_upload {
    offset = t.expected_bytes;
    target_file_id = staged;
    chunk_bytes = chunk_size;
    staging_name = t.staging_name;
    previous_canonical_file_id = previous;
    recovered_completed_staging = true;
  }

  -- An exact file of the staging name is used again.
  abbrev pub recover_staged : Target → ℕ → String → String → Act lib r.Cloud Reply
  recover_staged t chunk_size previous staged = do
    set_upload r (recovered_upload t chunk_size previous staged)
    save_state r clock
    finish_staged_upload r clock t staged

  unfoldable pub staged_or_new : Target → ℕ → String → String → Act lib r.Cloud Reply
  unfolding file_metadata metadata_matches finish_staged_upload start_session go_on_later
  staged_or_new t chunk_size parent previous = do
    found ← on_cloud (r.find_child parent t.staging_name)
    exact ← file_is_exact t (id_or_blank found)
    if exact
        then recover_staged t chunk_size previous (id_or_blank found)
        else open_session t chunk_size parent previous

  -- No session: what an earlier step may have finished is looked for first.
  unfoldable pub without_session : Target → ℕ → String → Act lib r.Cloud Reply
  unfolding staged_or_new verify_candidate_and_backup mark_commit_ready file_metadata
      metadata_matches
  without_session t chunk_size parent = do
    found ← on_cloud (r.find_child parent t.annual_name)
    exact ← file_is_exact t (id_or_blank found)
    if exact
        then already_promoted t (id_or_blank found)
        else staged_or_new t chunk_size parent (id_or_blank found)

  abbrev pub after_query : Target → ℕ → String → Upload → Progress → Act lib r.Cloud Reply
  after_query t chunk_size parent u expired = do
    set_upload r (only_previous u)
    without_session t chunk_size parent
  after_query t chunk_size parent u (complete_with id) = finish_staged_upload r clock t id
  after_query t chunk_size parent u (incomplete n) = do
    set_upload r (record u { offset = n; retry_count = 0 })
    continue_upload r clock t chunk_size (record u { offset = n; retry_count = 0 })

  -- The body of the `try`.
  abbrev pub attempt_with : Target → ℕ → String → Upload → Act lib r.Cloud Reply
  attempt_with t chunk_size parent u =
      if u.promotion_attempted && not (u.staged_file_id == "")
      then finish_staged_upload r clock t u.staged_file_id
      else if u.session_uri == ""
      then without_session t chunk_size parent
      else do p ← query_status r u.session_uri t.expected_bytes; after_query t chunk_size parent u p

  unfoldable pub attempt_upload : Target → ℕ → String → Act lib r.Cloud Reply
  unfolding without_session query_status finish_staged_upload continue_upload
  attempt_upload t chunk_size parent = do
    m ← read
    attempt_with t chunk_size parent m.finalize.resumable_upload

  abbrev pub fail_with_state : Target → Failure → Memory lib r.Cloud → Act lib r.Cloud Reply
  fail_with_state t e m = do
    set_status r failed (some (r.first_thousand e.message))
    sync r (some t.candidate_id)
    event r clock "UPLOAD_FAILED"
        (("canonical_state", canonical_state m.finalize.resumable_upload) ∷ [])
    save_state r clock
    unschedule_job r
    give (record {
      ok = false;
      status = some failed;
      action = "drive_resumable_upload_failed";
      retry_after = 0;
      error = some (r.first_thousand e.message);
    })

  unfoldable pub upload_failed : Target → Failure → Act lib r.Cloud Reply
  upload_failed t e = do m ← read; fail_with_state t e m

  abbrev pub delay_after : String → ℕ → Failure → ℕ
  delay_after job_id retry_count e =
      max (retry_delay r.digest_byte job_id retry_count) (ceil_seconds e.retry_after)

  -- `upload["retry_count"] = retry_count`
  abbrev pub counted : ℕ → Memory lib r.Cloud → Memory lib r.Cloud
  counted n m = with_upload r (record m.finalize.resumable_upload { retry_count = n }) m

  abbrev pub retry_with_state : Target → Failure → Upload → ℕ → ℕ → Act lib r.Cloud Reply
  retry_with_state t e u again delay = do
    change (counted again)
    set_status r waiting_retry (some (r.first_thousand e.message))
    sync r (some t.candidate_id)
    event r clock "UPLOAD_WAITING_RETRY"
        (("retry_count", num again) ∷ ("canonical_state", canonical_state u) ∷ [])
    save_state r clock
    schedule_job r clock (1000 * delay)
    give (record {
      ok = true;
      status = some waiting_retry;
      action = "drive_resumable_waiting_retry";
      retry_after = delay;
      error = none;
    })

  unfoldable pub retry_later : Target → Failure → Act lib r.Cloud Reply
  unfolding retry_delay
  retry_later t e = do
    m ← read
    let u = m.finalize.resumable_upload
    retry_with_state t e u (u.retry_count + 1) (delay_after m.job.job_id (u.retry_count + 1) e)

  -- `except (ResumableUploadError, ArchiveStorageError)`
  abbrev pub caught :
      Target → Outcome Reply × Memory lib r.Cloud → Outcome Reply × Memory lib r.Cloud
  caught t (value p, m) = (value p, m)
  caught t (storage_error e, m) = if e.retryable then retry_later t e m else upload_failed t e m
  caught t (runtime_error e, m) = (runtime_error e, m)

  -- No uploader: the job waits for the configuration.
  unfoldable pub wait_for_configuration : Act lib r.Cloud Reply
  wait_for_configuration = do
    set_status r waiting_configuration (
        some
          "Google Drive resumable Apps Script session broker is not configured; candidate is preserved")
    save_state r clock
    unschedule_job r
    give (reply waiting_configuration "drive_resumable_bridge_required")

  abbrev pub with_uploader : Target → Option ℕ → Act lib r.Cloud Reply
  with_uploader t none = wait_for_configuration
  with_uploader t (some chunk_size) = do
    parent ← on_cloud (r.drive_folder t.annual_parts)
    λ m. caught t (attempt_upload t chunk_size parent m)

  abbrev pub with_candidate : Target → Option ℕ → Option lib.Bytes → Act lib r.Cloud Reply
  with_candidate t uploader none = fail_with "Durable annual finalize candidate is missing"
  with_candidate t uploader (some file) =
      if not (size_agrees (r.listed_size file) t.expected_bytes)
      then fail_with "Durable annual finalize candidate failed size verification"
      else do sync r (some t.candidate_id); with_uploader t uploader

  -- The names and the recorded size and hash that the step works with.
  unfoldable pub target : Ids → Job → Finalize → Target
  target ids j f =
      let name = ids.annual_name j.cabinet j.year in
      let sha = r.lower f.annual_sha256 in
      record {
        candidate_id = ids.candidate j.job_id;
        annual_parts =
            "База данных" ∷ "WB" ∷ j.cabinet ∷ lib.show j.year ∷ "finance" ∷ "weekly" ∷ "main" ∷ [];
        annual_name = name;
        staging_name = str_append "." (
            str_append name (
              str_append ".upload-report-" (
                str_append (lib.show f.report_id)
                  (str_append "-" (str_append (r.first_twelve sha) ".tmp")))));
        expected_bytes = f.annual_bytes;
        expected_sha = sha;
      }

  abbrev pub is_recorded : Target → Bool
  is_recorded t = ltb 0 t.expected_bytes && count t.expected_sha == 64

  abbrev pub step_with : Target → Option ℕ → Memory lib r.Cloud → Act lib r.Cloud Reply
  step_with t uploader m =
      if not (is_recorded t) then fail_with "Durable annual finalize metadata is incomplete" else do
        on_cloud (r.store (head_object t.candidate_id))
        with_candidate t uploader (lookup m.job.job_id m.world.candidates)

  unfoldable pub upload_step : Ids → Option ℕ → Act lib r.Cloud Reply
  unfolding target wait_for_configuration attempt_upload upload_failed retry_later
  upload_step ids uploader = do m ← read; step_with (target ids m.job m.finalize) uploader m
