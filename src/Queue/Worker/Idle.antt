-- ===== src/Queue/Worker/Idle.antt =====
-- What a worker step of app/core/archive_queue.py without a named job does.
use mcp_yandex_cloud_infra.Prelude.{
  ℕ, ◌+◌, ◌*◌, ◌≤◌, ◌<◌, ◌≡◌, refl, inl, inr, ◌⊎◌, String, Bool, Option, none, some, [], ◌∷◌, In,
  leb, Bool-cases, arith, nat_eq, string_eq,
}
use mcp_yandex_cloud_infra.Dict.{Dict}
use mcp_yandex_cloud_infra.Finance.Csv.{Library}
use mcp_yandex_cloud_infra.Queue.State.{
  World, Step, done, Reply, Clock, first_due, next_due, due_or_wait,
}
use mcp_yandex_cloud_infra.Queue.State.Earliest.{IsFirst, first_due-IsFirst}
use mcp_yandex_cloud_infra.Queue.Discover.{Setup}
use mcp_yandex_cloud_infra.Queue.Finalize.{Ids}
use mcp_yandex_cloud_infra.Queue.Worker
use mcp_yandex_cloud_infra.Queue.Worker.{text_lt, step_job, worker_step}

module _ {lib : Library} (s : Setup) (ids : Ids) (locked : Bool) (clock : Clock)
    (w : World lib) where
  -- The step of a job that is due, and before which no job is due.
  abbrev pub Picks : Step lib → Type 0
  Picks x =
      (job_id : String) × (t : ℕ) × (In (job_id, t) w.due
        × (t ≤ clock.time)
        × ((f : String × ℕ) → In f w.due → t ≤ f.1)
        × (x ≡ step_job s ids locked clock job_id w))

  -- No job is due, and the report of seconds to wait reaches the earliest due time within a second.
  abbrev pub Idles : Step lib → Type 0
  Idles x =
      (r : Reply) × ((x ≡ done w r)
        × (r.action ≡ "idle")
        × ((f : String × ℕ)
            → In f w.due
            → (clock.time < f.1) × (clock.time + r.retry_after * 1000 < f.1 + 1000))
        × (((w.due ≡ []) × (r.retry_after ≡ 0))
            ⊎ ((f : String × ℕ) × (In f w.due × (f.1 ≤ clock.time + r.retry_after * 1000)))))

  idle_or-Picks :
      (o : Option (String × ℕ))
      → first_due text_lt w.due ≡ o
      → IsFirst o w.due
      → let x = Worker.idle_or s ids locked clock (due_or_wait clock.time o) w in Picks x ⊎ Idles x
  idle_or-Picks none e h =
      inr (_, (refl, refl, (λ f m. absurd (h f m)), inl (empty_of w.due h, ground arith)))
    where
      empty_of : (d : Dict String ℕ) → IsFirst none d → d ≡ []
      empty_of [] n = refl
      empty_of (f ∷ d) n = absurd (n f (inl refl))
  idle_or-Picks (some (job_id, t)) e (i, low) = elim (Bool-cases (leb t clock.time)) [
    | inl b ↦ rw b (inl (job_id, t, (i, ground (arith, b), low, refl)))
    | inr b ↦ rw b (
        inr (
          _,
          (
            refl,
            refl,
            (λ f m. (ground (arith, b, low f m), ground (arith, b, low f m))),
            inr ((job_id, t), (i, ground (arith, b))),
          ),
        ))
  ]

  -- A worker step without a named job either is the step of a job that is due and before which none
  -- is due, or changes nothing and reports itself idle: then no job is due, and the whole seconds that
  -- it reports end at the earliest due time or less than a second after it (0 on an empty queue).
  pub idle_step-Picks :
      Picks (worker_step s ids locked clock "" w) ⊎ Idles (worker_step s ids locked clock "" w)
  unfolding worker_step next_due
  idle_step-Picks = idle_or-Picks (first_due text_lt w.due) refl (first_due-IsFirst text_lt w.due)
