-- ===== src/Upload/Steps.antt =====
-- The body of `_upload_step` of app/core/archive_resumable_worker.py: from an early memory it ends
-- finished, or stopped.
use mcp_yandex_cloud_infra.Prelude.{
  ℕ, ◌≡◌, String, true, false, not, ◌&&◌, none, some, In, nat_eq, string_eq, ◌==◌,
}
use mcp_yandex_cloud_infra.Finance.Csv.{Library}
use mcp_yandex_cloud_infra.Queue.State.{Job, Upload, World, Clock, queued}
use mcp_yandex_cloud_infra.Upload.Remote.{Remote, described}
use mcp_yandex_cloud_infra.Upload.Session.{Progress, incomplete, complete_with, expired}
use mcp_yandex_cloud_infra.Upload.Record.{with_upload, synced, recorded, with_status, saved}
use mcp_yandex_cloud_infra.Upload.Finish.{Target, metadata_matches, id_or_blank}
use mcp_yandex_cloud_infra.Upload.Step
use mcp_yandex_cloud_infra.Upload.Step.{
  staged_or_new, without_session, attempt_upload, file_is_exact, recovered_upload, new_upload,
}
use mcp_yandex_cloud_infra.Upload.Chunk.{only_previous}
use mcp_yandex_cloud_infra.Upload.Logic.{
  Runs, give-Runs, if_Runs, bind-Runs, seq-Runs, change-Runs, read-Runs, before-Runs, errors-Runs,
}
use mcp_yandex_cloud_infra.Upload.Sound.{IsEarly, IsStopped, IsFinished}
use mcp_yandex_cloud_infra.Upload.Stages.{early_is-Stopped, save-Early}
use mcp_yandex_cloud_infra.Upload.Requests.{
  cloud-StaysEarly, query-StaysEarly, start_session-StaysEarly, file_metadata-Runs,
}
use mcp_yandex_cloud_infra.Upload.Endings.{IsEarlyExact, IsBackedUp, verify-Runs}
use mcp_yandex_cloud_infra.Upload.Commits.{mark_commit_ready-Runs, early_is-Ready}
use mcp_yandex_cloud_infra.Upload.Finishes.{finish-Runs}
use mcp_yandex_cloud_infra.Upload.Chunks.{
  Completes, early, upload_early, synced_early, status_early, recorded_early, go_on-Completes,
  continue-Completes,
}

module _ {lib : Library} (r : Remote lib) (clock : Clock) (t : Target) (j : Job)
    (w : World lib) where
  open-Completes :
      (chunk_size : ℕ) (parent previous : String)
      → Completes r clock t j w (Step.open_session r clock t chunk_size parent previous)
  open-Completes chunk_size parent previous =
      bind-Runs (λ _. IsEarly r clock t j w)
        (early r clock t j w
          (start_session-StaysEarly r clock t j w parent t.staging_name t.expected_bytes))
        (λ s.
          change-Runs _ (with_upload r (new_upload r clock t chunk_size previous s))
            (upload_early r clock t j w _)
            (change-Runs _ (synced r (some t.candidate_id)) (synced_early r clock t j w) (
              change-Runs _ (recorded r clock "RESUMABLE_SESSION_STARTED" _)
                (recorded_early r clock t j w _ _)
                (change-Runs _ (with_status r queued none) (status_early r clock t j w)
                  (go_on-Completes r clock t j w _)))))

  -- When the answer is yes, the file was described as exact.
  exact-Runs :
      (id : String)
      → Runs
          (IsEarly r clock t j w)
          (file_is_exact r clock t id)
          (λ b m. IsEarly r clock t j w m × (b ≡ true → IsEarlyExact r clock t j w id m))
          (IsStopped r clock t j w)
  unfolding IsEarlyExact
  exact-Runs id =
      if_Runs (id == "") (λ q. give-Runs false (λ m p. (p, λ z. cc z)))
        (λ q.
          bind-Runs (λ meta m. In (described id meta) m.log × IsEarly r clock t j w m)
            (errors-Runs (early_is-Stopped r clock t j w) (file_metadata-Runs r clock t j w id))
            (λ meta.
              give-Runs (metadata_matches r meta t.expected_bytes t.expected_sha)
                (λ m p. (p.1, λ z. ((meta, (p.0, z)), p.1)))))

  already-Completes :
      (id : String)
      → Runs
          (IsEarlyExact r clock t j w id)
          (Step.already_promoted r clock t id)
          (λ _. IsFinished r clock t j w)
          (IsStopped r clock t j w)
  already-Completes id =
      seq-Runs (λ m. IsBackedUp r clock t j w m × IsEarlyExact r clock t j w id m)
        (errors-Runs (early_is-Stopped r clock t j w) (verify-Runs r clock t j w id))
        (before-Runs (early_is-Ready r clock t j w id) (mark_commit_ready-Runs r clock t j w id _))

  recover-Completes :
      (chunk_size : ℕ) (previous staged : String)
      → Completes r clock t j w (Step.recover_staged r clock t chunk_size previous staged)
  recover-Completes chunk_size previous staged =
      change-Runs _ (with_upload r (recovered_upload r clock t chunk_size previous staged))
        (upload_early r clock t j w _)
        (change-Runs _ (saved r clock) (save-Early r clock t j w)
          (finish-Runs r clock t j w staged))

  staged-Completes :
      (chunk_size : ℕ) (parent previous : String)
      → Completes r clock t j w (staged_or_new r clock t chunk_size parent previous)
  unfolding staged_or_new
  staged-Completes chunk_size parent previous =
      bind-Runs (λ _. IsEarly r clock t j w)
        (early r clock t j w (cloud-StaysEarly r clock t j w (r.find_child parent t.staging_name)))
        (λ found. bind-Runs _ (exact-Runs (id_or_blank found)) (λ exact.
          if_Runs exact
            (λ q.
              before-Runs (λ m p. p.0) (recover-Completes chunk_size previous (id_or_blank found)))
            (λ q. before-Runs (λ m p. p.0) (open-Completes chunk_size parent previous))))

  without-Completes :
      (chunk_size : ℕ) (parent : String)
      → Completes r clock t j w (without_session r clock t chunk_size parent)
  unfolding without_session
  without-Completes chunk_size parent =
      bind-Runs (λ _. IsEarly r clock t j w)
        (early r clock t j w (cloud-StaysEarly r clock t j w (r.find_child parent t.annual_name)))
        (λ found. bind-Runs _ (exact-Runs (id_or_blank found)) (λ exact.
          if_Runs exact (λ q. before-Runs (λ m p. p.1 q) (already-Completes (id_or_blank found)))
            (λ q.
              before-Runs (λ m p. p.0) (staged-Completes chunk_size parent (id_or_blank found)))))

  after_query-Completes :
      (chunk_size : ℕ) (parent : String) (u : Upload) (p : Progress)
      → Completes r clock t j w (Step.after_query r clock t chunk_size parent u p)
  after_query-Completes chunk_size parent u expired =
      change-Runs _ (with_upload r (only_previous u)) (upload_early r clock t j w _)
        (without-Completes chunk_size parent)
  after_query-Completes chunk_size parent u (complete_with id) = finish-Runs r clock t j w id
  after_query-Completes chunk_size parent u (incomplete n) =
      change-Runs _ (with_upload r (record u { offset = n; retry_count = 0 }))
        (upload_early r clock t j w _)
        (continue-Completes r clock t j w chunk_size (record u { offset = n; retry_count = 0 }))

  pub attempt-Completes :
      (chunk_size : ℕ) (parent : String)
      → Completes r clock t j w (attempt_upload r clock t chunk_size parent)
  unfolding attempt_upload
  attempt-Completes chunk_size parent =
      read-Runs (λ m. Step.attempt_with r clock t chunk_size parent m.finalize.resumable_upload)
        (λ n h.
          let u = n.finalize.resumable_upload in
          before-Runs (λ m p. p.1)
            (if_Runs (u.promotion_attempted && not (u.staged_file_id == ""))
              (λ q. finish-Runs r clock t j w u.staged_file_id)
              (λ q.
                if_Runs (u.session_uri == "") (λ q. without-Completes chunk_size parent)
                  (λ q.
                    bind-Runs (λ _. IsEarly r clock t j w)
                      (early r clock t j w (query-StaysEarly r clock t j w u.session_uri))
                      (after_query-Completes chunk_size parent u)))))
