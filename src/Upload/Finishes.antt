-- ===== src/Upload/Finishes.antt =====
-- `_finish_staged_upload` of app/core/archive_resumable_worker.py: from an early memory it ends
-- finished, or stopped.
use mcp_yandex_cloud_infra.Prelude.{String, In, nat_eq, string_eq, pair_eq, ◌==◌}
use mcp_yandex_cloud_infra.Finance.Csv.{Library}
use mcp_yandex_cloud_infra.Queue.State.{Job, Upload, World, Clock}
use mcp_yandex_cloud_infra.Upload.Remote.{Remote, described}
use mcp_yandex_cloud_infra.Upload.Act.{◌>>◌}
use mcp_yandex_cloud_infra.Upload.Finish
use mcp_yandex_cloud_infra.Upload.Finish.{
  Target, metadata_matches, mark_commit_ready, promote_staged, finish_staged_upload, finish_file,
  finish_with, promotion_of, committing, upload_verified, checkpoint, verify_candidate_and_backup,
  or_text,
}
use mcp_yandex_cloud_infra.Upload.Logic.{
  Runs, give-Runs, fail-Runs, if_Runs, bind-Runs, seq-Runs, read-Runs, before-Runs, errors-Runs,
}
use mcp_yandex_cloud_infra.Upload.Sound.{IsEarly, IsStopped, IsFinished}
use mcp_yandex_cloud_infra.Upload.Stages.{early_is-Stopped}
use mcp_yandex_cloud_infra.Upload.Requests.{StaysEarly, cloud-StaysEarly, file_metadata-Runs}
use mcp_yandex_cloud_infra.Upload.Endings.{IsEarlyExact, verify-Runs}
use mcp_yandex_cloud_infra.Upload.Commits.{IsReadyEarly, promote_staged-Runs}

module _ {lib : Library} (r : Remote lib) (clock : Clock) (t : Target) (j : Job)
    (w : World lib) where
  staged_id-Runs : (id parent : String) → StaysEarly r clock t j w (Finish.staged_id r t id parent)
  staged_id-Runs id parent =
      if_Runs (id == "")
        (λ q.
          bind-Runs _ (cloud-StaysEarly r clock t j w (r.find_child parent t.staging_name))
            (λ found. give-Runs _ (λ m h. h)))
        (λ q. give-Runs id (λ m h. h))

  -- With the description of a file that is exact.
  promote_exact-Runs :
      (parent id : String) (u : Upload)
      → Runs
          (IsEarlyExact r clock t j w id)
          (verify_candidate_and_backup r t >> promote_staged r clock t parent id u)
          (λ _. IsFinished r clock t j w)
          (IsStopped r clock t j w)
  unfolding IsReadyEarly
  promote_exact-Runs parent id u =
      seq-Runs (IsReadyEarly r clock t j w id)
        (errors-Runs (early_is-Stopped r clock t j w) (verify-Runs r clock t j w id))
        (promote_staged-Runs r clock t j w parent id u)

  finish_file-Runs :
      (parent id : String) (u : Upload)
      → Runs
          (IsEarly r clock t j w)
          (finish_file r clock t parent id u)
          (λ _. IsFinished r clock t j w)
          (IsStopped r clock t j w)
  unfolding finish_file IsEarlyExact
  finish_file-Runs parent id u =
      if_Runs (id == "") (λ q. fail-Runs _ (early_is-Stopped r clock t j w))
        (λ q.
          bind-Runs (λ meta m. In (described id meta) m.log × IsEarly r clock t j w m)
            (errors-Runs (early_is-Stopped r clock t j w) (file_metadata-Runs r clock t j w id))
            (λ meta.
              if_Runs (metadata_matches r meta t.expected_bytes t.expected_sha)
                (λ q. before-Runs (λ m p. ((meta, (p.0, q)), p.1)) (promote_exact-Runs parent id u))
                (λ q. fail-Runs _ (λ m p. early_is-Stopped r clock t j w m p.1))))

  pub finish-Runs :
      (answered : String)
      → Runs
          (IsEarly r clock t j w)
          (finish_staged_upload r clock t answered)
          (λ _. IsFinished r clock t j w)
          (IsStopped r clock t j w)
  unfolding finish_staged_upload
  finish-Runs answered =
      read-Runs (λ m. finish_with r clock t answered m.finalize.resumable_upload)
        (λ n h.
          let u = n.finalize.resumable_upload in
          before-Runs (λ m p. p.1)
            (bind-Runs (λ _. IsEarly r clock t j w)
              (errors-Runs (early_is-Stopped r clock t j w)
                (cloud-StaysEarly r clock t j w (r.drive_folder t.annual_parts)))
              (λ parent.
                bind-Runs (λ _. IsEarly r clock t j w)
                  (errors-Runs (early_is-Stopped r clock t j w) (
                    staged_id-Runs (or_text answered (or_text u.target_file_id u.staged_file_id))
                      parent))
                  (λ id. finish_file-Runs parent id u))))
