-- ===== src/Queue/Worker/Progress.antt =====
-- What `worker_step` of app/core/archive_queue.py does to a queued job, whatever the step finds.
use mcp_yandex_cloud_infra.Prelude.{
  ◌+◌, ◌≤◌, ◌≡◌, ◌≢◌, refl, ap, inl, inr, String, Bool, true, false, Option, none, some, length,
  Bool-cases, arith, streq_iff, string_eq, nat_eq,
}
use mcp_yandex_cloud_infra.Dict.{lookup, lookup-delete}
use mcp_yandex_cloud_infra.Finance.Csv.{Library}
use mcp_yandex_cloud_infra.Queue.State.{
  Job, Status, queued, running, waiting_rate_limit, waiting_retry, complete, failed,
  waiting_configuration, promotion_pending, Phase, discover, download, other, Finalize, World, Step,
  done, raised, Reply, Clock, load, unschedule,
}
use mcp_yandex_cloud_infra.Queue.Discover.{Setup}
use mcp_yandex_cloud_infra.Queue.Finalize.{Ids}
use mcp_yandex_cloud_infra.Queue.Worker
use mcp_yandex_cloud_infra.Queue.Worker.{step_job, started}
use mcp_yandex_cloud_infra.Queue.Worker.Ends.{
  IsPlaced, Advances, Kept, Framed, stores, Ends, close-Ends,
}
use mcp_yandex_cloud_infra.Queue.Worker.Steps.{Ends-weaken, discover_step-Ends}
use mcp_yandex_cloud_infra.Queue.Worker.Reports.{download_step-Ends, finalize_step-Ends}

is_complete_of_ne : (t : Status) → (t ≢ complete) → Worker.is_complete t ≡ false
is_complete_of_ne complete n = absurd (n refl)
is_complete_of_ne queued n = refl
is_complete_of_ne running n = refl
is_complete_of_ne waiting_rate_limit n = refl
is_complete_of_ne waiting_retry n = refl
is_complete_of_ne waiting_configuration n = refl
is_complete_of_ne promotion_pending n = refl
is_complete_of_ne failed n = refl

module _ {lib : Library} where
  -- What any step leaves alone.
  unfoldable pub IsContained : String → World lib → Step lib → Type 0
  unfolding Framed stores
  IsContained job_id w (done v r) = Framed job_id w v × (length v.requests ≤ length w.requests + 1)
  IsContained job_id w (raised v e) =
      Framed job_id w v × (length v.requests ≤ length w.requests + 1)

module _ {lib : Library} (s : Setup) (ids : Ids) (clock : Clock) where
  in_phase-Ends :
      (p : Phase) (j : Job) (w : World lib)
      → j.phase ≡ p
      → j.finalize ≡ none
      → Ends 1 clock j w (Worker.in_phase s ids p clock j w)
  in_phase-Ends discover j w e h = discover_step-Ends s clock j w (rw e refl)
  in_phase-Ends download j w e h = download_step-Ends s clock j w (rw h refl)
  in_phase-Ends (other p) j w e h =
      Ends-weaken clock j w _ (close-Ends clock j _ _ w w refl (inr refl) refl refl refl)

  run_job-Ends :
      (o : Option Finalize) (j : Job) (w : World lib)
      → j.finalize ≡ o
      → Ends 1 clock j w (Worker.run_job s ids o clock j w)
  run_job-Ends (some f) j w h = finalize_step-Ends s ids clock j f w h
  run_job-Ends none j w h = in_phase-Ends j.phase j w refl h

  started-Ends :
      (j : Job) (w : World lib) (x : Step lib) → Ends 1 clock (started j) w x → Ends 1 clock j w x
  unfolding Ends Kept Advances
  started-Ends j w (done v r) h = h
  started-Ends j w (raised v e) h = h

  -- A step of a job that is not COMPLETE, under its lock.
  pub step_job-Ends :
      (j : Job) (w : World lib)
      → load j.job_id w ≡ some j
      → (j.status ≢ complete)
      → Ends 1 clock j w (step_job s ids false clock j.job_id w)
  unfolding step_job
  step_job-Ends j w l n =
      rw (l, is_complete_of_ne j.status n)
        (started-Ends j w _ (run_job-Ends j.finalize (started j) w refl))

  module _ (j : Job) (w v : World lib) (r : Reply) (l : load j.job_id w ≡ some j)
      (n : j.status ≢ complete) (e : step_job s ids false clock j.job_id w ≡ done v r) where
    step_Ends : Ends 1 clock j w (done v r)
    step_Ends = rw e at (step_job-Ends j w l n)

    -- A step that has the lock of a saved job that is not COMPLETE, and that returns, keeps the job:
    -- it is saved, and it is
    -- either closed (COMPLETE or FAILED) and off the queue, or open (QUEUED or waiting) and on the
    -- queue with a due time that is not before the step's time.
    pub job_never_lost :
        (k : Job) × ((load j.job_id v ≡ some k)
          × (k.job_id ≡ j.job_id)
          × IsPlaced clock k (lookup j.job_id v.due))
    unfolding Ends Kept IsPlaced
    job_never_lost = let (k, (a, b, c, d)) = step_Ends.0 in (k, (a, b, c))

    -- A step that has the lock of a saved job that is not COMPLETE, and that returns and leaves the job
    -- QUEUED, has moved it on: to a later phase, to a later
    -- position of the listing, to a later report, to a later finalize stage or to a later row.
    pub queued_job-Advances :
        (k : Job) → load j.job_id v ≡ some k → k.status ≡ queued → Advances j k
    unfolding Ends Kept IsPlaced Advances
    queued_job-Advances k a q =
        let (i, (b, c, d, f)) = step_Ends.0 in let g : k ≡ i = cc (a, b) in rw g (f (rw g at q))

  IsContained-of_Ends :
      (j : Job) (w : World lib) (x : Step lib) → Ends 1 clock j w x → IsContained j.job_id w x
  unfolding Ends IsContained Framed stores load
  IsContained-of_Ends j w (done v r) (k, h, l) = (h, l)
  IsContained-of_Ends j w (raised v e) (same, l) =
      ((λ k n. (ap (λ u. lookup k u.jobs) same, ap (λ u. lookup k u.due) same)), l)

  unschedule-IsContained :
      (job_id : String) (r : Reply) (w : World lib)
      → IsContained job_id w (done (unschedule job_id w) r)
  unfolding IsContained Framed unschedule load
  unschedule-IsContained job_id r w =
      (λ k n. (refl, ground (arith, lookup-delete job_id k w.due, streq_iff job_id k)), omega arith)

  with_job-IsContained :
      (job_id : String) (o : Option Job) (w : World lib)
      → ((j : Job) → o ≡ some j → j.job_id ≡ job_id)
      → IsContained job_id w (Worker.with_job s ids clock job_id o w)
  with_job-IsContained job_id none w h = unschedule-IsContained job_id _ w
  with_job-IsContained job_id (some j) w h = elim (Bool-cases (Worker.is_complete j.status)) [
    | inl e ↦ rw e (unschedule-IsContained job_id _ w)
    | inr e ↦
        rw (e, ← h j refl)
          (IsContained-of_Ends j w _
            (started-Ends j w _ (run_job-Ends j.finalize (started j) w refl)))
  ]

  -- Whatever the worker does under a job's name, be the job locked, missing, COMPLETE, or running
  -- (and saved under its own name), and whether it returns or raises: it asks the provider for one page
  -- at most, and no other job and no other due time changes.
  pub step-IsContained :
      (locked : Bool) (job_id : String) (w : World lib)
      → ((j : Job) → load job_id w ≡ some j → j.job_id ≡ job_id)
      → IsContained job_id w (step_job s ids locked clock job_id w)
  unfolding step_job
  step-IsContained true job_id w h =
      unfold IsContained in unfold Framed in (λ k n. (refl, refl), omega arith)
  step-IsContained false job_id w h = with_job-IsContained job_id (load job_id w) w h
