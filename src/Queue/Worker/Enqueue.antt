-- ===== src/Queue/Worker/Enqueue.antt =====
-- What `enqueue` of app/core/archive_queue.py does to the jobs that are there.
use mcp_yandex_cloud_infra.Prelude.{
  ℕ, ◌+◌, ◌≡◌, refl, inl, inr, ◌⊎◌, String, true, ◌||◌, Option, none, some, ltb, Bool-cases, arith,
  string_eq, streq_iff,
}
use mcp_yandex_cloud_infra.Dict.{lookup, lookup-insert}
use mcp_yandex_cloud_infra.Finance.Csv.{Library}
use mcp_yandex_cloud_infra.Queue.State.{
  Job, World, Step, done, raised, Reply, Clock, load, save, schedule,
}
use mcp_yandex_cloud_infra.Queue.Discover.{Setup, with_credentials}
use mcp_yandex_cloud_infra.Queue.Worker
use mcp_yandex_cloud_infra.Queue.Worker.{is_complete, job_name, new_job, enqueue}

module _ {lib : Library} where
  -- The job is there, COMPLETE or due.
  abbrev pub IsQueued : Clock → String → World lib → Type 0
  IsQueued clock job_id v =
      (j : Job) × ((load job_id v ≡ some j)
        × ((is_complete j.status ≡ true) ⊎ (lookup job_id v.due ≡ some (clock.time + 0))))

  abbrev pub Keeps : World lib → World lib → Type 0
  Keeps w v = (k : String) (j : Job) → load k w ≡ some j → load k v ≡ some j

  Enqueued : Clock → Option String → (String → String) → World lib → Step lib → Type 0
  Enqueued clock cabinet name w (done v r) =
      Keeps w v × ((c : String) × ((cabinet ≡ some c) × IsQueued clock (name c) v))
  Enqueued clock cabinet name w (raised v e) = v ≡ w

module _ {lib : Library} (s : Setup) (clock : Clock) (year : ℕ) (token_type : String → String)
    (name : String → String) (w : World lib) where
  new-Enqueued :
      (c token : String)
      → load (name c) w ≡ none
      → Enqueued clock (some c) name w (Worker.enqueue_new s clock (name c) c year token w)
  unfolding Enqueued load save schedule
  new-Enqueued c token h =
      let j = new_job clock (name c) c year token in
      (
        (λ k i e. ground (arith, e, h, lookup-insert (name c) k j w.jobs, streq_iff (name c) k)),
        (
          c,
          (
            refl,
            (
              j,
              (
                ground
                    (arith, lookup-insert (name c) (name c) j w.jobs, streq_iff (name c) (name c)),
                inr (
                    ground (
                      arith,
                      lookup-insert (name c) (name c) (clock.time + 0) w.due,
                      streq_iff (name c) (name c),
                    )),
              ),
            ),
          ),
        ),
      )

  existing-Enqueued :
      (c : String) (j : Job)
      → load (name c) w ≡ some j
      → Enqueued clock (some c) name w (Worker.enqueue_existing s clock (name c) j w)
  unfolding Enqueued load schedule
  existing-Enqueued c j h = elim (Bool-cases (is_complete j.status)) [
    | inl e ↦ rw e ((λ k i q. q), (c, (refl, (j, (h, inl e)))))
    | inr e ↦ rw e (
      (λ k i q. q),
      (
        c,
        (
          refl,
          (
            j,
            (
              h,
              inr (
                  ground (
                    arith,
                    lookup-insert (name c) (name c) (clock.time + 0) w.due,
                    streq_iff (name c) (name c),
                  )),
            ),
          ),
        ),
      ),
    )
  ]

  at-Enqueued :
      (c : String) (o : Option Job)
      → load (name c) w ≡ o
      → Enqueued clock (some c) name w (Worker.enqueue_at s clock (name c) c year token_type o w)
  at-Enqueued c (some j) h = existing-Enqueued c j h
  at-Enqueued c none h = known (s.credentials c)
    where
      known :
          (o : Option String)
          → Enqueued clock
              (some c)
              name
              w
              (with_credentials s o w (Worker.enqueue_new s clock (name c) c year (token_type c) w))
      known none = new-Enqueued c (token_type c) h
      known (some e) = unfold Enqueued in refl

module _ {lib : Library} (s : Setup) (show : ℕ → String) (this_year : ℕ)
    (cabinet_of : String → Option String) (token_type : String → String) (clock : Clock) (year : ℕ)
    (seller : String) (w : World lib) where
  for-Enqueued :
      (o : Option String)
      → Enqueued clock o
          (λ c. job_name show c year)
          w
          (Worker.enqueue_for s show clock year token_type o w)
  for-Enqueued none = unfold Enqueued in refl
  for-Enqueued (some c) =
      at-Enqueued s clock year token_type (λ c. job_name show c year) w c
        (load (job_name show c year) w) refl

  enqueue-Enqueued :
      Enqueued clock
        (cabinet_of seller)
        (λ c. job_name show c year)
        w
        (enqueue s show this_year cabinet_of token_type clock year seller w)
  unfolding enqueue
  enqueue-Enqueued = elim (Bool-cases (ltb year 2024 || ltb this_year year)) [
    | inl e ↦ rw e (unfold Enqueued in refl)
    | inr e ↦ rw e (for-Enqueued (cabinet_of seller))
  ]

  -- An `enqueue` that returns knows the cabinet. It leaves every saved job as it is, whatever it has
  -- reached, and afterwards the job of the cabinet and the year is saved, and COMPLETE or due now.
  pub enqueue_is_idempotent :
      (v : World lib) (r : Reply)
      → enqueue s show this_year cabinet_of token_type clock year seller w ≡ done v r
      → ((k : String) (j : Job) → load k w ≡ some j → load k v ≡ some j)
        × ((c : String) × ((cabinet_of seller ≡ some c) × IsQueued clock (job_name show c year) v))
  unfolding Enqueued
  enqueue_is_idempotent v r e = rw e at enqueue-Enqueued
