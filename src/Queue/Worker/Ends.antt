-- ===== src/Queue/Worker/Ends.antt =====
-- How every step of app/core/archive_queue.py ends: the predicate, and the two ways to save a job.
use mcp_yandex_cloud_infra.Prelude.{
  ℕ, ◌+◌, ◌≤◌, ◌<◌, ◌≡◌, ◌≢◌, inl, inr, ◌⊎◌, String, none, some, [], length, arith, string_eq,
  streq_iff, Option,
}
use mcp_yandex_cloud_infra.Dict.{lookup, lookup-insert, lookup-delete}
use mcp_yandex_cloud_infra.Finance.Csv.{Library}
use mcp_yandex_cloud_infra.Queue.State.{
  Job, Status, queued, waiting_rate_limit, waiting_retry, complete, failed, Phase, discover,
  download, other, FinalizePhase, prepare, upload_annual, commit, unknown, Finalize, World, Step,
  done, raised, Reply, Clock, load, save, schedule, unschedule, requeue, close,
}

-- A job that is off the queue, or waits on it.
abbrev pub IsClosed : Status → Type 0
IsClosed s = (s ≡ complete) ⊎ (s ≡ failed)

abbrev pub IsOpen : Status → Type 0
IsOpen s = (s ≡ queued) ⊎ ((s ≡ waiting_rate_limit) ⊎ (s ≡ waiting_retry))

abbrev pub phase_rank : Phase → ℕ
phase_rank discover = 0
phase_rank download = 1
phase_rank (other p) = 2

abbrev stage : FinalizePhase → ℕ
stage prepare = 1
stage upload_annual = 2
stage commit = 3
stage (unknown p) = 4

abbrev pub finalize_rank : Option Finalize → ℕ
finalize_rank none = 0
finalize_rank (some f) = stage f.phase

-- The later of two states of a job, by the lexicographic order of its phase, its position in the
-- listing, its report, the report's finalize stage and its position in the report.
unfoldable pub Advances : Job → Job → Type 0
Advances j k =
    (phase_rank j.phase < phase_rank k.phase)
    ⊎ ((phase_rank j.phase ≡ phase_rank k.phase)
        × ((j.discovery_offset < k.discovery_offset)
            ⊎ ((j.discovery_offset ≡ k.discovery_offset)
                × ((j.report_index < k.report_index)
                    ⊎ ((j.report_index ≡ k.report_index)
                        × ((finalize_rank j.finalize < finalize_rank k.finalize)
                            ⊎ ((finalize_rank j.finalize ≡ finalize_rank k.finalize)
                                × (j.current_rrd_id < k.current_rrd_id))))))))

-- Where the job is afterwards.
unfoldable pub IsPlaced : Clock → Job → Option ℕ → Type 0
IsPlaced clock k d =
    (IsClosed k.status × (d ≡ none))
    ⊎ (IsOpen k.status × ((t : ℕ) × ((d ≡ some t) × (clock.time ≤ t))))

module _ {lib : Library} where
  -- The job is saved, and a QUEUED one is further than before.
  unfoldable pub Kept : Clock → Job → World lib → Type 0
  unfolding IsPlaced Advances
  Kept clock j w =
      (k : Job) × ((load j.job_id w ≡ some k)
        × (k.job_id ≡ j.job_id)
        × IsPlaced clock k (lookup j.job_id w.due)
        × ((k.status ≡ queued) → Advances j k))

  -- No other job is touched.
  unfoldable pub Framed : String → World lib → World lib → Type 0
  Framed job_id w v =
      (k : String) → job_id ≢ k → (load k v ≡ load k w) × (lookup k v.due ≡ lookup k w.due)

  -- The object store and the queue of a world, without the requests.
  unfoldable pub stores : World lib → World lib
  stores w = record w { requests = [] }

  unfoldable pub Ends : ℕ → Clock → Job → World lib → Step lib → Type 0
  unfolding Kept Framed stores
  Ends n clock j w (done v r) =
      Kept clock j v × Framed j.job_id w v × (length v.requests ≤ length w.requests + n)
  Ends n clock j w (raised v e) =
      (stores v ≡ stores w) × (length v.requests ≤ length w.requests + n)

  pub requeue-Ends :
      (clock : Clock) (j k : Job) (delay : ℕ) (r : Reply) (w v : World lib)
      → k.job_id ≡ j.job_id
      → IsOpen k.status
      → ((k.status ≡ queued) → Advances j k)
      → v.jobs ≡ w.jobs
      → v.due ≡ w.due
      → v.requests ≡ w.requests
      → Ends 0 clock j w (requeue clock k delay r v)
  unfolding Ends Kept Framed IsPlaced Advances load save schedule
  requeue-Ends clock j k delay r w v e o a f g h =
      let saved = record k { updated_at = clock.utc } in
      (
        (
          saved,
          (
            ground
                (arith, lookup-insert k.job_id j.job_id saved v.jobs, streq_iff k.job_id j.job_id),
            e,
            inr (
              o,
              (
                clock.time + delay,
                (
                  ground (
                    arith,
                    lookup-insert k.job_id j.job_id (clock.time + delay) v.due,
                    streq_iff k.job_id j.job_id,
                  ),
                  omega arith,
                ),
              ),
            ),
            a,
          ),
        ),
        (λ q n. (
          ground (arith, lookup-insert k.job_id q saved v.jobs, streq_iff k.job_id q),
          ground (arith, lookup-insert k.job_id q (clock.time + delay) v.due, streq_iff k.job_id q),
        )),
        ground arith,
      )

  pub close-Ends :
      (clock : Clock) (j k : Job) (r : Reply) (w v : World lib)
      → k.job_id ≡ j.job_id
      → IsClosed k.status
      → v.jobs ≡ w.jobs
      → v.due ≡ w.due
      → v.requests ≡ w.requests
      → Ends 0 clock j w (close clock k r v)
  unfolding Ends Kept Framed IsPlaced Advances load save unschedule
  close-Ends clock j k r w v e o f g h =
      let saved = record k { updated_at = clock.utc } in
      (
        (
          saved,
          (
            ground
                (arith, lookup-insert k.job_id j.job_id saved v.jobs, streq_iff k.job_id j.job_id),
            e,
            inl (
              o,
              ground (arith, lookup-delete k.job_id j.job_id v.due, streq_iff k.job_id j.job_id),
            ),
            (λ q. elim o [ inl c ↦ cc (q, c) | inr c ↦ cc (q, c) ]),
          ),
        ),
        (λ q n. (
          ground (arith, lookup-insert k.job_id q saved v.jobs, streq_iff k.job_id q),
          ground (arith, lookup-delete k.job_id q v.due, streq_iff k.job_id q),
        )),
        ground arith,
      )
