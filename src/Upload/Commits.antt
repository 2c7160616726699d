-- ===== src/Upload/Commits.antt =====
-- The promotion of a staged file and the way to COMMIT, of app/core/archive_resumable_worker.py.
use mcp_yandex_cloud_infra.Prelude.{
  ◌≡◌, inl, inr, refl, ◌∙◌, String, true, not, ◌||◌, none, some, ◌∷◌, nat_eq, string_eq, pair_eq,
  arith, ◌==◌, streq_iff,
}
use mcp_yandex_cloud_infra.Dict.{lookup}
use mcp_yandex_cloud_infra.Finance.Csv.{Library}
use mcp_yandex_cloud_infra.Queue.State.{
  save, Job, Finalize, Upload, commit, World, Clock, load, queued, promotion_pending,
}
use mcp_yandex_cloud_infra.Upload.Remote
use mcp_yandex_cloud_infra.Upload.Remote.{
  Remote, Memory, Meta, Promotion, Promoted, described, mirrored, promotion_sent,
}
use mcp_yandex_cloud_infra.Upload.Act.{noted}
use mcp_yandex_cloud_infra.Upload.Promote.{
  checked_promotion, promote_verified_file, has_size, cleanup_missing,
}
use mcp_yandex_cloud_infra.Upload.Record.{
  with_upload, synced, recorded, with_status, saved, scheduled, saved_job,
}
use mcp_yandex_cloud_infra.Upload.Finish.{
  Target, metadata_matches, mark_commit_ready, promote_staged, promotion_of, committing,
  upload_verified, checkpoint,
}
use mcp_yandex_cloud_infra.Upload.Logic.{
  Runs, give-Runs, refuse-Runs, if_Runs, bind-Runs, change-Runs, two_changes-Runs, before-Runs,
  cloud-Runs, errors-Runs,
}
use mcp_yandex_cloud_infra.Upload.Sound.{
  IsJustified, AllJustified, WasExact, IsSame, IsCommitted, IsEarly, IsSaved, IsLate, IsStopped,
  IsFinished,
}
use mcp_yandex_cloud_infra.Upload.Stages.{save-Early, save-Late, schedule-Finished, saved_is-Found}
use mcp_yandex_cloud_infra.Upload.Endings.{IsBackedUp, IsEarlyExact}

module _ {lib : Library} (r : Remote lib) (clock : Clock) (t : Target) (j : Job)
    (w : World lib) where
  -- An exact file of the id, and its backup.
  unfoldable pub IsReady : String → Memory lib r.Cloud → Type 0
  unfolding IsSame AllJustified IsBackedUp metadata_matches
  IsReady id m =
      IsSame r clock t j w m
      × AllJustified r t (lookup j.job_id w.candidates) m.log
      × WasExact r t id m.log
      × IsBackedUp r clock t j w m
      × (m.world.due ≡ w.due)

  unfoldable IsCommitting : String → Memory lib r.Cloud → Type 0
  unfolding IsReady
  IsCommitting id m =
      IsReady id m × (m.finalize.phase ≡ commit) × (m.finalize.annual_object_id ≡ id)

  commit-Finished :
      (id : String) (m : Memory lib r.Cloud)
      → IsCommitting id m
      → IsFinished r clock t j w (scheduled r clock 0 (saved r clock m))
  unfolding IsCommitting IsReady IsBackedUp IsSame IsCommitted metadata_matches
  commit-Finished id m (((i, c, y, k, g, o), a, x, (file, (l, z, e, n)), d), p, q) =
      schedule-Finished r clock t j w m 0
        (save-Late r clock t j w m (i, c, y, k, g, o) a (inr (p, (file, (l, z, e)), rw q x))
          (λ o h. inr p))
        d

  pub mark_commit_ready-Runs :
      (id : String) (action : String)
      → Runs
          (IsReady id)
          (mark_commit_ready r clock id t action)
          (λ _. IsFinished r clock t j w)
          (IsStopped r clock t j w)
  unfolding mark_commit_ready IsCommitting IsReady IsSame IsBackedUp
  mark_commit_ready-Runs id action =
      change-Runs (IsCommitting id) (committing r id) (λ m p. (p, refl, refl))
        (change-Runs (IsCommitting id) (synced r none) (λ m p. p)
          (change-Runs (IsCommitting id) (recorded r clock "UPLOAD_ANNUAL_TO_COMMIT" _) (λ m p. p)
            (change-Runs (IsCommitting id) (upload_verified r t) (λ m p. p)
              (change-Runs (IsCommitting id) (with_status r queued none) (λ m p. p)
                (two_changes-Runs (IsFinished r clock t j w) (saved r clock) (scheduled r clock 0)
                  (commit-Finished id) (give-Runs _ (λ m p. p)))))))

  -- Early, exact and backed up: what a promotion starts from.
  unfoldable pub IsReadyEarly : String → Memory lib r.Cloud → Type 0
  unfolding IsBackedUp IsEarlyExact
  IsReadyEarly id m = IsBackedUp r clock t j w m × IsEarlyExact r clock t j w id m

  pub early_is-Ready :
      (id : String) (m : Memory lib r.Cloud)
      → IsBackedUp r clock t j w m × IsEarlyExact r clock t j w id m
      → IsReady id m
  unfolding IsReady IsEarlyExact IsEarly
  early_is-Ready id m (b, (x, (s, a, p, n, d))) = (s, a, x, b, d)

  -- The checkpoint is in the finalize state, and then on record.
  unfoldable IsMarkedEarly : String → Memory lib r.Cloud → Type 0
  unfolding IsReadyEarly
  IsMarkedEarly id m =
      IsReadyEarly id m
      × (m.finalize.resumable_upload.promotion_attempted ≡ true)
      × (m.finalize.resumable_upload.staged_file_id ≡ id)

  unfoldable IsCheckpointed : String → Memory lib r.Cloud → Type 0
  unfolding IsMarkedEarly load
  IsCheckpointed id m =
      IsMarkedEarly id m
      × ((k : Job) × ((f : Finalize) × ((load j.job_id m.world ≡ some k)
              × (k.finalize ≡ some f)
              × (f.resumable_upload.promotion_attempted ≡ true)
              × (f.resumable_upload.staged_file_id ≡ id))))

  saved_is-Checkpointed :
      (id : String) (m : Memory lib r.Cloud)
      → IsMarkedEarly id m
      → IsCheckpointed id (saved r clock m)
  unfolding IsCheckpointed IsMarkedEarly IsReadyEarly IsBackedUp IsEarlyExact IsEarly IsSame save
  saved_is-Checkpointed id m ((b, (x, (s, a, p, n, d))), q, e) = (
    ((b, (x, save-Early r clock t j w m (s, a, p, n, d))), q, e),
    (
      record (saved_job r m) { updated_at = clock.utc },
      (m.finalize, (saved_is-Found r clock t j w m s.0, refl, q, e)),
    ),
  )

  -- After the request.
  unfoldable IsAsked : String → Memory lib r.Cloud → Type 0
  unfolding IsStopped IsReady
  IsAsked id m = IsStopped r clock t j w m × IsReady id m

  promotion_is-Asked :
      (p : Promotion) (m : Memory lib r.Cloud)
      → p.expected_bytes ≡ t.expected_bytes
      → p.expected_sha256 ≡ t.expected_sha
      → IsCheckpointed p.file_id m
      → IsAsked p.file_id (noted (promotion_sent p) m)
  unfolding IsCheckpointed IsMarkedEarly IsReadyEarly IsBackedUp IsEarlyExact IsEarly IsSame IsAsked
      IsStopped IsLate IsSaved IsReady AllJustified IsJustified IsCommitted metadata_matches
  promotion_is-Asked p m eb es
        (
          (((file, (l, ca, ex, n)), ((meta, (inn, h)), (s, a, ph, nn, d))), q, e),
          (k, (f, (g, u, v, z))),
        ) =
      let here : AllJustified r t (lookup j.job_id w.candidates) (promotion_sent p ∷ m.log) =
        ((eb, es, (meta, (inn, h)), (file, (n, ex))), a) in
      let same : (o : Promotion)
          → ◌≡◌ {A = Remote.Exchange lib.Bytes} (promotion_sent p) (promotion_sent o)
          → p.file_id ≡ o.file_id =
        λ o i. cc i in
      (
        (
          (
            s,
            here,
            inl ph,
            (λ o. elim [ inl i ↦ inl (q, e ∙ same o i) | inr i ↦ absurd (nn o i) ]),
            (λ o. elim [
              | inl i ↦ (k, (f, (g, u, inl (v, z ∙ same o i))))
              | inr i ↦ absurd (nn o i)
            ]),
          ),
          d,
        ),
        (s, here, (meta, (inr inn, h)), (file, (l, ca, ex, inr n)), d),
      )

  checked-Runs :
      (p : Promotion) (a : Promoted) (P : Memory lib r.Cloud → Type 0)
      → Runs P (checked_promotion r p a) (λ meta m. (meta.id ≡ p.file_id) × P m) P
  unfolding checked_promotion
  checked-Runs p a P =
      if_Runs (a.file.id == "") (λ q. refuse-Runs _ _ _ (λ m h. h))
        (λ q.
          if_Runs (not (a.file.id == p.file_id)) (λ q. refuse-Runs _ _ _ (λ m h. h))
            (λ i.
              if_Runs (not (a.file.name == p.canonical_name)) (λ q. refuse-Runs _ _ _ (λ m h. h))
                (λ q.
                  if_Runs
                    (not (has_size a.file.size p.expected_bytes)
                      || not (a.file.sha256_checksum == r.lower p.expected_sha256))
                    (λ q. refuse-Runs _ _ _ (λ m h. h))
                    (λ q.
                      if_Runs (cleanup_missing r p a) (λ q. refuse-Runs _ _ _ (λ m h. h))
                        (λ q.
                          give-Runs a.file
                            (λ m h. (ground (arith, i, streq_iff a.file.id p.file_id), h)))))))

  asked_is-Stopped :
      (id : String) (m : Memory lib r.Cloud) → IsAsked id m → IsStopped r clock t j w m
  unfolding IsAsked
  asked_is-Stopped id m h = h.0

  promoted-Runs :
      (p : Promotion)
      → p.expected_bytes ≡ t.expected_bytes
      → p.expected_sha256 ≡ t.expected_sha
      → Runs
          (IsCheckpointed p.file_id)
          (promote_verified_file r p)
          (λ meta m. (meta.id ≡ p.file_id) × IsAsked p.file_id m)
          (IsStopped r clock t j w)
  unfolding promote_verified_file IsAsked IsStopped IsLate IsReady IsSame IsSaved IsBackedUp
      IsCommitted
  promoted-Runs p eb es =
      change-Runs (IsAsked p.file_id) (noted (promotion_sent p))
        (λ m h. promotion_is-Asked p m eb es h)
        (errors-Runs (asked_is-Stopped p.file_id) (
          bind-Runs (λ _. IsAsked p.file_id)
            (cloud-Runs (r.promote_verified p) (λ m c h. h) (λ m h. h))
            (λ answer. checked-Runs p answer (IsAsked p.file_id))))

  pub promote_staged-Runs :
      (parent id : String) (u : Upload)
      → Runs
          (IsReadyEarly id)
          (promote_staged r clock t parent id u)
          (λ _. IsFinished r clock t j w)
          (IsStopped r clock t j w)
  unfolding promote_staged IsMarkedEarly IsReadyEarly IsBackedUp IsEarlyExact IsEarly IsSame IsAsked
  promote_staged-Runs parent id u =
      change-Runs (IsMarkedEarly id) (with_upload r (checkpoint r t id u)) (λ m h. (h, refl, refl))
        (change-Runs (IsMarkedEarly id) (synced r (some t.candidate_id)) (λ m h. h)
          (change-Runs (IsMarkedEarly id) (recorded r clock "PROMOTION_PENDING" _) (λ m h. h)
            (change-Runs (IsMarkedEarly id) (with_status r promotion_pending none) (λ m h. h)
              (change-Runs (IsCheckpointed id) (saved r clock) (saved_is-Checkpointed id) (
                bind-Runs (λ meta m. (meta.id ≡ id) × IsAsked id m)
                  (promoted-Runs (promotion_of r t parent id u) refl refl)
                  (λ meta.
                    before-Runs (λ m h. (rw h.0 h.1.1))
                      (mark_commit_ready-Runs meta.id "report_annual_uploaded_resumable")))))))
