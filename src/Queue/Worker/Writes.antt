-- ===== src/Queue/Worker/Writes.antt =====
-- What `_finalize_step` of app/core/archive_queue.py writes outside the job.
use mcp_yandex_cloud_infra.Prelude.{
  ◌≡◌, ◌≢◌, refl, inl, inr, ◌⊎◌, String, Bool, true, false, ◌&&◌, Option, none, some, List, [], ◌∷◌,
  ◌+◌, get_elem?, length, leb, arith, nat_eq, string_eq, pair_eq, ◌==◌, streq_iff, if◌then◌else◌,
}
use mcp_yandex_cloud_infra.Dict.{lookup, insert}
use mcp_yandex_cloud_infra.Finance.Csv.{Library, Row}
use mcp_yandex_cloud_infra.Finance.Annual.{Stats}
use mcp_yandex_cloud_infra.Finance.Registry.{merge_registry}
use mcp_yandex_cloud_infra.Finance.Fragments.{ReportFragment}
use mcp_yandex_cloud_infra.Queue.State.{
  Job, Finalize, FinalizePhase, prepare, upload_annual, commit, unknown, World, Step, done, raised,
  Reply, Clock, save, schedule, unschedule,
}
use mcp_yandex_cloud_infra.Queue.Discover.{Setup}
use mcp_yandex_cloud_infra.Queue.Finalize
use mcp_yandex_cloud_infra.Queue.Finalize.{
  Ids, finalize_step, prepare_stage, upload_stage, commit_stage, commit_record,
}

module _ {lib : Library} where
  -- The annual file is written from the candidate that was verified.
  abbrev pub IsVerified : Job → Finalize → World lib → World lib → Type 0
  IsVerified j f w v =
      (f.phase ≡ upload_annual)
      × ((file : lib.Bytes) × ((lookup j.job_id w.candidates ≡ some file)
            × (lib.size file ≡ f.annual_bytes)
            × (lib.sha256 file ≡ f.annual_sha256)
            × (v.annual ≡ insert (j.cabinet, j.year) file w.annual)))

  -- The registry is written when the annual file has been uploaded.
  abbrev pub IsRegistered : Finalize → World lib → World lib → Type 0
  IsRegistered f w v =
      (f.phase ≡ commit) × (f.annual_object_id ≢ "") × ((b : lib.Bytes) × (v.registry ≡ some b))

  unfoldable pub Writes : Job → Finalize → World lib → Step lib → Type 0
  Writes j f w (done v r) =
      ((v.annual ≡ w.annual) ⊎ IsVerified j f w v)
      × ((v.registry ≡ w.registry) ⊎ IsRegistered f w v)
  Writes j f w (raised v e) = (v.annual ≡ w.annual) × (v.registry ≡ w.registry)

module _ {lib : Library} (s : Setup) (ids : Ids) (clock : Clock) (j : Job) (f : Finalize)
    (w : World lib) where
  raised-Writes : (e : String) → Writes j f w (raised w e)
  unfolding Writes
  raised-Writes e = (refl, refl)

  if_Writes :
      (b : Bool) (x y : Step lib)
      → (b ≡ true → Writes j f w x)
      → (b ≡ false → Writes j f w y)
      → Writes j f w (if b then x else y)
  if_Writes true x y h g = h refl
  if_Writes false x y h g = g refl

  prepared-Writes :
      (rows : List Row) (o : Option (lib.Bytes × Stats))
      → Writes j f w (Finalize.prepared s ids clock j f rows o w)
  unfolding Writes save schedule
  prepared-Writes rows none = (refl, refl)
  prepared-Writes rows (some (file, stats)) = (inl refl, inl refl)

  uploaded-Writes :
      (o : Option lib.Bytes)
      → lookup j.job_id w.candidates ≡ o
      → f.phase ≡ upload_annual
      → Writes j f w (Finalize.uploaded s ids clock j f o w)
  unfolding Writes save schedule
  uploaded-Writes none h e = (refl, refl)
  uploaded-Writes (some file) h e =
      if_Writes (lib.size file == f.annual_bytes && lib.sha256 file == f.annual_sha256) _ _
        (λ q. (
          inr (
            e,
            (
              file,
              (
                h,
                ground (arith, q),
                ground (arith, q, streq_iff (lib.sha256 file) f.annual_sha256),
                refl,
              ),
            ),
          ),
          inl refl,
        ))
        (λ q. (refl, refl))

  committed-Writes :
      (o : Option lib.Bytes)
      → f.phase ≡ commit
      → f.annual_object_id ≢ ""
      → Writes j f w (Finalize.committed s ids clock j f o w)
  unfolding Writes save schedule unschedule
  committed-Writes none e n = (refl, refl)
  committed-Writes (some registry) e n =
      if_Writes (leb (length j.fragments) (j.report_index + 1)) _ _
        (λ q. (inl refl, inr (e, n, (registry, refl))))
        (λ q. (inl refl, inr (e, n, (registry, refl))))

  by_phase-Writes :
      (p : FinalizePhase) (fragment : ReportFragment)
      → f.phase ≡ p
      → Writes j f w (Finalize.by_phase s ids p clock j f fragment w)
  unfolding prepare_stage upload_stage commit_stage
  by_phase-Writes prepare fragment e = prepared-Writes _ _
  by_phase-Writes upload_annual fragment e = uploaded-Writes (lookup j.job_id w.candidates) refl e
  by_phase-Writes commit fragment e =
      if_Writes (f.annual_object_id == "") _ _ (λ q. raised-Writes _)
        (λ q.
          committed-Writes
            (merge_registry lib w.registry (commit_record ids clock j f fragment ∷ [])) e
            (ground (arith, q, streq_iff f.annual_object_id "")))
  by_phase-Writes (unknown p) fragment e = raised-Writes _

  for_fragment-Writes :
      (o : Option ReportFragment) → Writes j f w (Finalize.for_fragment s ids clock j f o w)
  for_fragment-Writes none = raised-Writes _
  for_fragment-Writes (some fragment) =
      if_Writes (f.report_id == fragment.report_id) _ _ (λ q. by_phase-Writes f.phase fragment refl)
        (λ q. raised-Writes _)

  finalize_step-Writes : Writes j f w (finalize_step s ids clock j f w)
  unfolding finalize_step
  finalize_step-Writes = for_fragment-Writes (get_elem? j.fragments j.report_index)

  -- A finalize step that returns leaves the annual file as it was, or it is in UPLOAD_ANNUAL and has
  -- put there the stored candidate, whose size and hash are the recorded ones; and it leaves the
  -- registry as it was, or it is in COMMIT and the annual file has an object id.
  pub writes_are-IsVerified :
      (v : World lib) (r : Reply)
      → finalize_step s ids clock j f w ≡ done v r
      → ((v.annual ≡ w.annual) ⊎ IsVerified j f w v)
        × ((v.registry ≡ w.registry) ⊎ IsRegistered f w v)
  unfolding Writes
  writes_are-IsVerified v r e = rw e at finalize_step-Writes
