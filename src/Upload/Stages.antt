-- ===== src/Upload/Stages.antt =====
-- The changes that an upload step makes to its memory keep the predicates of Sound.
use mcp_yandex_cloud_infra.Prelude.{
  ℕ, ◌+◌, ◌≡◌, ◌⊎◌, inl, inr, refl, some, In, nat_eq, string_eq, pair_eq, arith, streq_iff,
}
use mcp_yandex_cloud_infra.Dict.{lookup, lookup-insert, lookup-delete}
use mcp_yandex_cloud_infra.Finance.Csv.{Library}
use mcp_yandex_cloud_infra.Queue.State.{
  Job, upload_annual, World, Clock, load, save, schedule, unschedule, failed, waiting_configuration,
}
use mcp_yandex_cloud_infra.Upload.Remote.{Remote, Memory, Promotion, promotion_sent}
use mcp_yandex_cloud_infra.Upload.Finish.{Target}
use mcp_yandex_cloud_infra.Upload.Record.{saved_job}
use mcp_yandex_cloud_infra.Upload.Sound.{
  AllJustified, IsMarked, IsSame, IsCommitted, IsEarly, IsSaved, IsLate, IsStopped, IsRescheduled,
  IsFinished,
}

module _ {lib : Library} (r : Remote lib) (clock : Clock) (t : Target) (j : Job)
    (w : World lib) where
  pub early_is-Late : (m : Memory lib r.Cloud) → IsEarly r clock t j w m → IsLate r clock t j w m
  unfolding IsEarly IsLate IsSaved
  early_is-Late m (s, a, p, n, d) = (s, a, inl p, (λ q i. absurd (n q i)), (λ q i. absurd (n q i)))

  pub early_is-Stopped :
      (m : Memory lib r.Cloud) → IsEarly r clock t j w m → IsStopped r clock t j w m
  unfolding IsStopped IsEarly
  early_is-Stopped m (s, a, p, n, d) = (early_is-Late m (s, a, p, n, d), d)

  -- Saving the state keeps both, and puts the finalize state on record.
  save-Same :
      (m : Memory lib r.Cloud)
      → IsSame r clock t j w m
      → IsSame r clock t j w (record m { world = save clock (saved_job r m) m.world })
  unfolding IsSame save load
  save-Same m (i, c, y, k, g, o) = (
    i,
    c,
    y,
    k,
    g,
    λ q n. ground (
      arith,
      o q n,
      i,
      lookup-insert m.job.job_id q (record (saved_job r m) { updated_at = clock.utc }) m.world.jobs,
      streq_iff m.job.job_id q,
    ),
  )

  pub save-Early :
      (m : Memory lib r.Cloud)
      → IsEarly r clock t j w m
      → IsEarly r clock t j w (record m { world = save clock (saved_job r m) m.world })
  unfolding IsEarly save
  save-Early m (s, a, p, n, d) = (save-Same m s, a, p, n, d)

  pub saved_is-Found :
      (m : Memory lib r.Cloud)
      → m.job.job_id ≡ j.job_id
      → load j.job_id (save clock (saved_job r m) m.world)
        ≡ some (record (saved_job r m) { updated_at = clock.utc })
  unfolding save load
  saved_is-Found m i = ground (
    arith,
    i,
    lookup-insert m.job.job_id j.job_id (record (saved_job r m) { updated_at = clock.utc })
        m.world.jobs,
    streq_iff m.job.job_id j.job_id,
  )

  -- Once saved, the marks of the finalize state are on record.
  pub save-Late :
      (m : Memory lib r.Cloud)
      → IsSame r clock t j w m
      → AllJustified r t (lookup j.job_id w.candidates) m.log
      → (m.finalize.phase ≡ upload_annual) ⊎ IsCommitted r clock t j w m
      → ((p : Promotion) → In (promotion_sent p) m.log → IsMarked p m.finalize)
      → IsLate r clock t j w (record m { world = save clock (saved_job r m) m.world })
  unfolding IsLate IsSaved IsSame IsCommitted save
  save-Late m s a p k = (
    save-Same m s,
    a,
    p,
    k,
    (λ q i. (
      record (saved_job r m) { updated_at = clock.utc },
      (m.finalize, (saved_is-Found m s.0, refl, k q i)),
    )),
  )

  -- The two ends of a step that returns.
  pub schedule-Finished :
      (m : Memory lib r.Cloud) (delay : ℕ)
      → IsLate r clock t j w (record m { world = save clock (saved_job r m) m.world })
      → m.world.due ≡ w.due
      → IsFinished r clock t j w (record m {
        world = schedule clock m.job.job_id delay (save clock (saved_job r m) m.world);
      })
  unfolding IsFinished IsRescheduled IsLate IsSaved IsSame IsCommitted save schedule load
  schedule-Finished m delay (s, a, p, k, v) d = (
    (s, a, p, k, v),
    (
      (
        record (saved_job r m) { updated_at = clock.utc },
        (
          saved_is-Found m s.0,
          inr (
            clock.time + delay,
            (
              ground (
                arith,
                s.0,
                lookup-insert m.job.job_id j.job_id (clock.time + delay) m.world.due,
                streq_iff m.job.job_id j.job_id,
              ),
              omega arith,
            ),
          ),
        ),
      ),
      (λ q n. ground (
        arith,
        s.0,
        d,
        lookup-insert m.job.job_id q (clock.time + delay) m.world.due,
        streq_iff m.job.job_id q,
      )),
    ),
  )

  pub unschedule-Finished :
      (m : Memory lib r.Cloud)
      → IsLate r clock t j w (record m { world = save clock (saved_job r m) m.world })
      → m.world.due ≡ w.due
      → (m.job.status ≡ failed) ⊎ (m.job.status ≡ waiting_configuration)
      → IsFinished r clock t j w
          (record m { world = unschedule m.job.job_id (save clock (saved_job r m) m.world) })
  unfolding IsFinished IsRescheduled IsLate IsSaved IsSame IsCommitted save unschedule load
  unschedule-Finished m (s, a, p, k, v) d o = (
    (s, a, p, k, v),
    (
      (
        record (saved_job r m) { updated_at = clock.utc },
        (
          saved_is-Found m s.0,
          inl (
            ground (
              arith,
              s.0,
              lookup-delete m.job.job_id j.job_id m.world.due,
              streq_iff m.job.job_id j.job_id,
            ),
            o,
          ),
        ),
      ),
      (λ q n.
          ground
            (arith, s.0, d, lookup-delete m.job.job_id q m.world.due, streq_iff m.job.job_id q)),
    ),
  )
