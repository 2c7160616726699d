-- ===== src/Upload/Verified.antt =====
-- The properties of `_upload_step` of app/core/archive_resumable_worker.py.
use mcp_yandex_cloud_infra.Prelude.{
  ℕ, ◌≡◌, ◌≢◌, ◌⊎◌, refl, String, Option, some, In, nat_eq, string_eq, pair_eq,
}
use mcp_yandex_cloud_infra.Dict.{lookup}
use mcp_yandex_cloud_infra.Finance.Csv.{Library}
use mcp_yandex_cloud_infra.Queue.State.{Job, Finalize, upload_annual, World, Clock, Reply, load}
use mcp_yandex_cloud_infra.Queue.Finalize.{Ids}
use mcp_yandex_cloud_infra.Upload.Remote.{Remote, Memory, Outcome, Promotion, promotion_sent}
use mcp_yandex_cloud_infra.Upload.Finish.{Target}
use mcp_yandex_cloud_infra.Upload.Step.{upload_step, target}
use mcp_yandex_cloud_infra.Upload.Worker.{memory_of}
use mcp_yandex_cloud_infra.Upload.Logic.{Lands, landed, Lands-weaken}
use mcp_yandex_cloud_infra.Upload.Sound.{
  AllJustified, IsMarked, IsSame, IsCommitted, IsEarly, IsSaved, IsLate, IsStopped, IsRescheduled,
  IsFinished,
}
use mcp_yandex_cloud_infra.Upload.Safety.{recorded-Completes}

module _ {lib : Library} (r : Remote lib) (clock : Clock) (ids : Ids) (uploader : Option ℕ)
    (j : Job) (f : Finalize) (w : World lib) (c : r.Cloud) where
  abbrev pub result : Outcome Reply × Memory lib r.Cloud
  result = upload_step r clock ids uploader (memory_of r j f w c)

  abbrev pub goal : Target
  goal = target r clock ids j f

  upload_step-Lands :
      f.phase ≡ upload_annual
      → Lands (λ _. IsFinished r clock goal j w) (IsStopped r clock goal j w) result
  unfolding upload_step IsEarly IsSame AllJustified target
  upload_step-Lands p =
      (recorded-Completes r clock goal j w uploader (memory_of r j f w c)).runs
        (memory_of r j f w c) ((refl, refl, refl, refl, refl, λ k n. refl), tt, p, (λ q i. i), refl)

  late : f.phase ≡ upload_annual → IsLate r clock goal j w result.1
  unfolding IsFinished IsStopped
  late p =
      landed (λ _. IsFinished r clock goal j w) (IsStopped r clock goal j w)
        (IsLate r clock goal j w) result (λ a m h. h.0) (λ m h. h.0) (upload_step-Lands p)

  -- Every request that an upload step makes is justified by the ones before it, whether the step
  -- returns or fails: a session URI is one of Drive's; bytes are those of the candidate from the
  -- offset, inside the recorded size; a backup has the recorded size and hash; and a promotion comes
  -- after the staged file was described with that size and hash and the backup was written.
  pub requests_are-AllJustified :
      f.phase ≡ upload_annual → AllJustified r goal (lookup j.job_id w.candidates) result.1.log
  unfolding IsLate
  requests_are-AllJustified p = (late p).1

  -- After an upload step the finalize state is still in UPLOAD_ANNUAL, or it is in COMMIT, the
  -- annual backup has the recorded size and hash, and so had the Drive file that it names.
  pub commit_is-Verified :
      f.phase ≡ upload_annual
      → (result.1.finalize.phase ≡ upload_annual) ⊎ IsCommitted r clock goal j w result.1
  unfolding IsLate
  commit_is-Verified p = (late p).2

  -- When an upload step has asked for a promotion, whatever came of it, the saved job names the file
  -- as the staged one with the promotion attempted, or is in COMMIT.
  pub promotion_is-Saved :
      (p : Promotion)
      → f.phase ≡ upload_annual
      → In (promotion_sent p) result.1.log
      → (k : Job) × ((g : Finalize) × ((load j.job_id result.1.world ≡ some k)
            × (k.finalize ≡ some g)
            × IsMarked p g))
  unfolding IsLate IsSaved
  promotion_is-Saved p e i = (late e).4 p i

  -- An upload step that returns leaves its job due again, or off the queue with the status FAILED or
  -- WAITING_CONFIGURATION, and the other jobs due as they were; one that fails leaves all of them due
  -- as they were. No other job is written.
  pub upload_keeps_jobs :
      (k : String)
      → f.phase ≡ upload_annual
      → j.job_id ≢ k
      → Lands (λ _. IsRescheduled r clock goal j w) (λ m. m.world.due ≡ w.due) result
        × (load k result.1.world ≡ load k w)
  unfolding IsLate IsSame IsFinished IsStopped
  upload_keeps_jobs k p n = (
    Lands-weaken _ _ _ _ result (λ a m h. h.1) (λ m h. h.1) (upload_step-Lands p),
    (late p).0.5 k n,
  )
