-- ===== src/Upload/Safety.antt =====
-- The ends of `_upload_step` of app/core/archive_resumable_worker.py, from the ends of its parts.
use mcp_yandex_cloud_infra.Prelude.{
  ℕ, ◌+◌, ◌*◌, ◌≡◌, ◌⊎◌, inl, inr, refl, String, not, Option, none, some, nat_eq, string_eq,
  pair_eq,
}
use mcp_yandex_cloud_infra.Dict.{Dict}
use mcp_yandex_cloud_infra.Json.{Json}
use mcp_yandex_cloud_infra.Finance.Csv.{Library}
use mcp_yandex_cloud_infra.Queue.State.{
  Job, World, Clock, Status, failed, waiting_retry, waiting_configuration, Reply,
}
use mcp_yandex_cloud_infra.Upload.Remote.{
  Remote, Memory, Failure, Outcome, value, storage_error, runtime_error, head_object,
}
use mcp_yandex_cloud_infra.Upload.Act.{Act}
use mcp_yandex_cloud_infra.Upload.Record.{
  with_upload, synced, recorded, with_status, saved, scheduled, unscheduled,
}
use mcp_yandex_cloud_infra.Upload.Finish.{Target, size_agrees}
use mcp_yandex_cloud_infra.Upload.Step
use mcp_yandex_cloud_infra.Upload.Step.{
  attempt_upload, upload_failed, retry_later, wait_for_configuration, upload_step, target,
}
use mcp_yandex_cloud_infra.Upload.Logic.{
  Lands, Runs, give-Runs, fail-Runs, if_Runs, if_Lands, bind-Runs, change-Runs, two_changes-Runs,
  read-Runs, before-Runs, errors-Runs,
}
use mcp_yandex_cloud_infra.Upload.Sound.{
  IsSame, IsCommitted, IsEarly, IsSaved, IsLate, IsStopped, IsFinished,
}
use mcp_yandex_cloud_infra.Upload.Stages.{
  early_is-Stopped, save-Late, schedule-Finished, unschedule-Finished,
}
use mcp_yandex_cloud_infra.Upload.Requests.{cloud-StaysEarly}
use mcp_yandex_cloud_infra.Upload.Chunks.{Completes}
use mcp_yandex_cloud_infra.Upload.Steps.{attempt-Completes}

module _ {lib : Library} (r : Remote lib) (clock : Clock) (t : Target) (j : Job)
    (w : World lib) where
  -- A saved memory that was stopped goes on with its marks.
  saved-Late :
      (m : Memory lib r.Cloud) → IsStopped r clock t j w m → IsLate r clock t j w (saved r clock m)
  unfolding IsStopped IsLate
  saved-Late m ((s, a, p, k, v), d) = save-Late r clock t j w m s a p k

  stopped_due : (m : Memory lib r.Cloud) → IsStopped r clock t j w m → m.world.due ≡ w.due
  unfolding IsStopped
  stopped_due m (l, d) = d

  -- Handling an error changes the status and the telemetry, and counts the retry.
  status_stopped :
      (s : Status) (e : Option String) (m : Memory lib r.Cloud)
      → IsStopped r clock t j w m
      → IsStopped r clock t j w (with_status r s e m)
  unfolding IsStopped IsLate IsSame IsSaved IsCommitted
  status_stopped s e m p = p

  synced_stopped :
      (m : Memory lib r.Cloud)
      → IsStopped r clock t j w m
      → IsStopped r clock t j w (synced r (some t.candidate_id) m)
  unfolding IsStopped IsLate IsSame IsSaved IsCommitted
  synced_stopped m p = p

  recorded_stopped :
      (name : String) (fields : Dict String Json) (m : Memory lib r.Cloud)
      → IsStopped r clock t j w m
      → IsStopped r clock t j w (recorded r clock name fields m)
  unfolding IsStopped IsLate IsSame IsSaved IsCommitted
  recorded_stopped name fields m p = p

  counted_stopped :
      (n : ℕ) (m : Memory lib r.Cloud)
      → IsStopped r clock t j w m
      → IsStopped r clock t j w
          (with_upload r (record m.finalize.resumable_upload { retry_count = n }) m)
  unfolding IsStopped IsLate IsSame IsSaved IsCommitted
  counted_stopped n m p = p

  -- A handler of an error finishes.
  abbrev Handles : Act lib r.Cloud Reply → Type 0
  Handles act =
      Runs (IsStopped r clock t j w) act (λ _. IsFinished r clock t j w) (IsStopped r clock t j w)

  closed :
      (s : Status) (m : Memory lib r.Cloud)
      → (s ≡ failed) ⊎ (s ≡ waiting_configuration)
      → IsStopped r clock t j w m × (m.job.status ≡ s)
      → IsFinished r clock t j w (unscheduled r (saved r clock m))
  closed s m h (p, e) =
      unschedule-Finished r clock t j w m (saved-Late m p) (stopped_due m p) (rw e h)

  failed-Handles : (e : Failure) → Handles (upload_failed r clock t e)
  unfolding upload_failed
  failed-Handles e = read-Runs (Step.fail_with_state r clock t e) (λ n h.
      before-Runs (λ m p. p.1)
        (change-Runs (λ m. IsStopped r clock t j w m × (m.job.status ≡ failed))
          (with_status r failed (some (r.first_thousand e.message)))
          (λ m p. (status_stopped _ _ m p, refl))
          (change-Runs (λ m. IsStopped r clock t j w m × (m.job.status ≡ failed))
            (synced r (some t.candidate_id)) (λ m p. (synced_stopped m p.0, p.1))
            (change-Runs (λ m. IsStopped r clock t j w m × (m.job.status ≡ failed))
              (recorded r clock "UPLOAD_FAILED" _) (λ m p. (recorded_stopped _ _ m p.0, p.1))
              (two_changes-Runs (IsFinished r clock t j w) (saved r clock) (unscheduled r)
                (λ m p. closed failed m (inl refl) p) (give-Runs _ (λ m p. p)))))))

  retry-Handles : (e : Failure) → Handles (retry_later r clock t e)
  unfolding retry_later
  retry-Handles e =
      read-Runs
        (λ m.
          let u = m.finalize.resumable_upload in
          Step.retry_with_state r clock t e u (u.retry_count + 1)
            (Step.delay_after r clock m.job.job_id (u.retry_count + 1) e))
        (λ n h.
          let u = n.finalize.resumable_upload in
          before-Runs (λ m p. p.1)
            (change-Runs (IsStopped r clock t j w) (Step.counted r clock (u.retry_count + 1))
              (counted_stopped _)
              (change-Runs (IsStopped r clock t j w)
                (with_status r waiting_retry (some (r.first_thousand e.message)))
                (status_stopped _ _)
                (change-Runs (IsStopped r clock t j w) (synced r (some t.candidate_id))
                  synced_stopped
                  (change-Runs (IsStopped r clock t j w) (recorded r clock "UPLOAD_WAITING_RETRY" _)
                    (recorded_stopped _ _)
                    (two_changes-Runs (IsFinished r clock t j w) (saved r clock)
                      (scheduled r clock
                        (1000 * Step.delay_after r clock n.job.job_id (u.retry_count + 1) e))
                      (λ m p.
                        schedule-Finished r clock t j w m _ (saved-Late m p) (stopped_due m p))
                      (give-Runs _ (λ m p. p))))))))

  caught-Lands :
      (o : Outcome Reply × Memory lib r.Cloud)
      → Lands (λ _. IsFinished r clock t j w) (IsStopped r clock t j w) o
      → Lands (λ _. IsFinished r clock t j w) (IsStopped r clock t j w) (Step.caught r clock t o)
  unfolding Lands
  caught-Lands (value p, m) h = h
  caught-Lands (storage_error e, m) h =
      if_Lands _ _ e.retryable _ _ (λ q. (retry-Handles e).runs m h)
        (λ q. (failed-Handles e).runs m h)
  caught-Lands (runtime_error e, m) h = h

  waits-Completes : Handles (wait_for_configuration r clock)
  unfolding wait_for_configuration
  waits-Completes =
      change-Runs (λ m. IsStopped r clock t j w m × (m.job.status ≡ waiting_configuration))
        (with_status r waiting_configuration _) (λ m p. (status_stopped _ _ m p, refl))
        (two_changes-Runs (IsFinished r clock t j w) (saved r clock) (unscheduled r)
          (λ m p. closed waiting_configuration m (inr refl) p) (give-Runs _ (λ m p. p)))

  with_uploader-Completes :
      (uploader : Option ℕ) → Completes r clock t j w (Step.with_uploader r clock t uploader)
  with_uploader-Completes none = before-Runs (early_is-Stopped r clock t j w) waits-Completes
  with_uploader-Completes (some chunk_size) =
      bind-Runs (λ _. IsEarly r clock t j w)
        (errors-Runs (early_is-Stopped r clock t j w)
          (cloud-StaysEarly r clock t j w (r.drive_folder t.annual_parts)))
        (λ parent. record {
          runs =
              λ m p. caught-Lands _ ((attempt-Completes r clock t j w chunk_size parent).runs m p);
        })

  synced_early :
      (m : Memory lib r.Cloud)
      → IsEarly r clock t j w m
      → IsEarly r clock t j w (synced r (some t.candidate_id) m)
  unfolding IsEarly IsSame
  synced_early m p = p

  with_candidate-Completes :
      (uploader : Option ℕ) (o : Option lib.Bytes)
      → Completes r clock t j w (Step.with_candidate r clock t uploader o)
  with_candidate-Completes uploader none = fail-Runs _ (early_is-Stopped r clock t j w)
  with_candidate-Completes uploader (some file) =
      if_Runs (not (size_agrees (r.listed_size file) t.expected_bytes))
        (λ q. fail-Runs _ (early_is-Stopped r clock t j w))
        (λ q.
          change-Runs (IsEarly r clock t j w) (synced r (some t.candidate_id)) synced_early
            (with_uploader-Completes uploader))

  pub recorded-Completes :
      (uploader : Option ℕ) (n : Memory lib r.Cloud)
      → Completes r clock t j w (Step.step_with r clock t uploader n)
  recorded-Completes uploader n =
      if_Runs (not (Step.is_recorded r clock t)) (λ q. fail-Runs _ (early_is-Stopped r clock t j w))
        (λ q.
          bind-Runs (λ _. IsEarly r clock t j w)
            (errors-Runs (early_is-Stopped r clock t j w)
              (cloud-StaysEarly r clock t j w (r.store (head_object t.candidate_id))))
            (λ _. with_candidate-Completes uploader _))
