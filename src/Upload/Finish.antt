-- ===== src/Upload/Finish.antt =====
-- app/core/archive_resumable_worker.py: `_metadata_matches`, `_verify_candidate_and_backup`,
-- `_mark_commit_ready` and `_finish_staged_upload`.
use mcp_yandex_cloud_infra.Prelude.{
  ℕ, String, Bool, true, false, ◌&&◌, not, Option, none, some, List, [], ◌∷◌, string_eq, nat_eq,
  pair_eq, ◌==◌, if◌then◌else◌,
}
use mcp_yandex_cloud_infra.Dict.{lookup, insert}
use mcp_yandex_cloud_infra.Json.{num, str}
use mcp_yandex_cloud_infra.Finance.Csv.{Library}
use mcp_yandex_cloud_infra.Queue.State.{
  Upload, no_upload, commit, Clock, Reply, reply, queued, promotion_pending,
}
use mcp_yandex_cloud_infra.Upload.Remote.{
  Remote, Memory, Meta, Promotion, get_object, put_object, head_object, mirrored,
}
use mcp_yandex_cloud_infra.Upload.Act.{
  Act, ◌>>=◌, ◌>>◌, give, refuse, fail_with, read, change, note, on_cloud,
}
use mcp_yandex_cloud_infra.Upload.Promote.{file_metadata, promote_verified_file}
use mcp_yandex_cloud_infra.Upload.Record.{
  set_upload, sync, event, set_status, save_state, schedule_job,
}

-- What the step knows of the upload: the candidate's id, the Drive names, and the recorded size and
-- hash.
pub record Target : Type 0 where
  pub candidate_id : String
  pub annual_parts : List String
  pub annual_name : String
  pub staging_name : String
  pub expected_bytes : ℕ
  pub expected_sha : String

abbrev pub or_zero : Option ℕ → ℕ
or_zero none = 0
or_zero (some n) = n

-- `a or b` on texts
abbrev pub or_text : String → String → String
or_text a b = if a == "" then b else a

abbrev pub id_or_blank : Option String → String
id_or_blank none = ""
id_or_blank (some s) = s

-- A size that the store does not report is not compared.
abbrev pub size_agrees : Option ℕ → ℕ → Bool
size_agrees none n = true
size_agrees (some k) n = k == n

module _ {lib : Library} (r : Remote lib) where
  unfoldable pub metadata_matches : Meta → ℕ → String → Bool
  metadata_matches meta expected_bytes expected_sha =
      or_zero meta.size == expected_bytes && r.lower meta.sha256_checksum == r.lower expected_sha

  -- app/core/archive_yandex.py: `download_bytes`, for the candidate of the job.
  abbrev pub downloaded : Option lib.Bytes → Act lib r.Cloud lib.Bytes
  downloaded none = refuse "Yandex Object Storage GET failed with HTTP 404" false 0
  downloaded (some file) = give file

  abbrev pub download_candidate : String → Act lib r.Cloud lib.Bytes
  download_candidate candidate_id = do
    on_cloud (r.store (get_object candidate_id))
    m ← read
    downloaded (lookup m.job.job_id m.world.candidates)

  -- The annual files of the stores are those of the object store.
  abbrev pub annual_written : lib.Bytes → Memory lib r.Cloud → Memory lib r.Cloud
  annual_written file m = record m {
    world = record m.world { annual = insert (m.job.cabinet, m.job.year) file m.world.annual };
  }

  -- app/core/archive_yandex.py: `upload_bytes`, for the annual file of the job.
  abbrev pub upload_backup : String → lib.Bytes → Act lib r.Cloud (Unit {0})
  upload_backup name file = do
    on_cloud (r.store (put_object name))
    change (annual_written file)
    note (mirrored file)
    on_cloud (r.store (head_object name))

  unfoldable pub verify_candidate_and_backup : Target → Act lib r.Cloud (Unit {0})
  verify_candidate_and_backup t = do
    file ← download_candidate t.candidate_id
    if not (lib.size file == t.expected_bytes)
        then fail_with "Candidate changed size before Yandex backup mirror"
        else if not (lib.sha256 file == t.expected_sha)
        then fail_with "Candidate changed SHA256 before Yandex backup mirror"
        else do
          upload_backup t.annual_name file
          if size_agrees (r.listed_size file) t.expected_bytes
              then give tt
              else fail_with "Yandex canonical backup failed size verification"

  abbrev pub committing : String → Memory lib r.Cloud → Memory lib r.Cloud
  committing file_id m = record m {
    finalize = record m.finalize { annual_object_id = file_id; phase = commit };
  }

  abbrev pub upload_verified : Target → Memory lib r.Cloud → Memory lib r.Cloud
  upload_verified t m = record m {
    finalize = record m.finalize {
      resumable_upload_verified = some (t.expected_bytes, t.expected_sha);
      resumable_upload = no_upload;
    };
  }

  unfoldable pub mark_commit_ready : Clock → String → Target → String → Act lib r.Cloud Reply
  mark_commit_ready clock file_id t action = do
    change (committing file_id)
    sync r none
    event r clock "UPLOAD_ANNUAL_TO_COMMIT" (
        ("canonical_file_id", str file_id)
        ∷ ("candidate_bytes", num t.expected_bytes)
        ∷ ("candidate_sha256", str t.expected_sha)
        ∷ ("resumable_offset", num t.expected_bytes)
        ∷ ("transition", str "UPLOAD_ANNUAL->COMMIT")
        ∷ [])
    change (upload_verified t)
    set_status r queued none
    save_state r clock
    schedule_job r clock 0
    give (reply queued action)

  -- The id that the last answer or the checkpoint names, else the file of the staging name.
  abbrev pub staged_id : Target → String → String → Act lib r.Cloud String
  staged_id t file_id parent =
      if file_id == ""
      then (do found ← on_cloud (r.find_child parent t.staging_name); give (id_or_blank found))
      else give file_id

  abbrev pub promotion_of : Target → String → String → Upload → Promotion
  promotion_of t parent file_id u = record {
    parent_id = parent;
    file_id = file_id;
    staging_name = t.staging_name;
    canonical_name = t.annual_name;
    expected_bytes = t.expected_bytes;
    expected_sha256 = t.expected_sha;
    previous_file_id = u.previous_canonical_file_id;
  }

  -- The checkpoint that is saved before the promotion is asked for.
  abbrev pub checkpoint : Target → String → Upload → Upload
  checkpoint t file_id u = record u {
    staged_file_id = file_id;
    promotion_attempted = true;
    offset = t.expected_bytes;
  }

  unfoldable pub promote_staged : Clock → Target → String → String → Upload → Act lib r.Cloud Reply
  unfolding promote_verified_file mark_commit_ready
  promote_staged clock t parent file_id u = do
    set_upload r (checkpoint t file_id u)
    sync r (some t.candidate_id)
    event r clock "PROMOTION_PENDING" (
        ("staging_file_id", str file_id)
        ∷ ("previous_canonical_file_id", str u.previous_canonical_file_id)
        ∷ ("resumable_offset", num t.expected_bytes)
        ∷ [])
    set_status r promotion_pending none
    save_state r clock
    promoted ← promote_verified_file r (promotion_of t parent file_id u)
    mark_commit_ready clock promoted.id t "report_annual_uploaded_resumable"

  -- The file must have the recorded size and hash.
  unfoldable pub finish_file : Clock → Target → String → String → Upload → Act lib r.Cloud Reply
  unfolding file_metadata verify_candidate_and_backup promote_staged metadata_matches
  finish_file clock t parent file_id u =
      if file_id == ""
      then fail_with "Drive resumable upload completed without a staged file id"
      else do
        meta ← file_metadata r file_id
        if metadata_matches meta t.expected_bytes t.expected_sha
            then (do verify_candidate_and_backup t; promote_staged clock t parent file_id u)
            else fail_with "Drive staged upload failed exact size/SHA256 verification"

  abbrev pub finish_with : Clock → Target → String → Upload → Act lib r.Cloud Reply
  finish_with clock t answered_id u = do
    parent ← on_cloud (r.drive_folder t.annual_parts)
    file_id ← staged_id t (or_text answered_id (or_text u.target_file_id u.staged_file_id)) parent
    finish_file clock t parent file_id u

  unfoldable pub finish_staged_upload : Clock → Target → String → Act lib r.Cloud Reply
  unfolding finish_file
  finish_staged_upload clock t answered_id = do
    m ← read
    finish_with clock t answered_id m.finalize.resumable_upload
