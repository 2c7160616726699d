-- ===== src/Upload/Agrees.antt =====
-- The resumable upload of app/core/archive_resumable_worker.py against the plain one of
-- app/core/archive_queue.py, which it replaces.
use mcp_yandex_cloud_infra.Prelude.{
  ℕ, ◌≡◌, inl, inr, refl, ◌∙◌, true, ◌&&◌, Option, some, nat_eq, string_eq, pair_eq, arith, ◌==◌,
  streq_iff,
}
use mcp_yandex_cloud_infra.Dict.{lookup, insert, lookup-insert}
use mcp_yandex_cloud_infra.Finance.Csv.{Library}
use mcp_yandex_cloud_infra.Queue.State.{
  Job, Finalize, upload_annual, commit, World, Clock, done, Reply, reply, queued, save, schedule,
}
use mcp_yandex_cloud_infra.Queue.Discover.{Setup}
use mcp_yandex_cloud_infra.Queue.Finalize.{Ids, upload_stage}
use mcp_yandex_cloud_infra.Upload.Remote.{Remote}
use mcp_yandex_cloud_infra.Upload.Step.{target}
use mcp_yandex_cloud_infra.Upload.Sound.{IsCommitted}
use mcp_yandex_cloud_infra.Upload.Verified.{result, commit_is-Verified}

module _ {lib : Library} (s : Setup) (clock : Clock) (ids : Ids) (j : Job) (f : Finalize)
    (w : World lib) where
  -- The plain step ends with its commit state, and with this file as the annual file.
  abbrev pub PlainUploads : Option lib.Bytes → Type 0
  PlainUploads annual =
      (v : World lib) × ((p : Reply) × ((upload_stage s ids clock j f w ≡ done v p)
          × (annual ≡ lookup (j.cabinet, j.year) v.annual)
          × (v.candidates ≡ w.candidates)
          × (v.registry ≡ w.registry)))

  plain_uploads :
      (file : lib.Bytes)
      → lookup j.job_id w.candidates ≡ some file
      → lib.size file ≡ f.annual_bytes
      → lib.sha256 file ≡ f.annual_sha256
      → PlainUploads (some file)
  unfolding upload_stage save schedule
  plain_uploads file e n h =
      let ok : (lib.size file == f.annual_bytes && lib.sha256 file == f.annual_sha256) ≡ true =
        ground (arith, n, h, streq_iff (lib.sha256 file) f.annual_sha256) in
      let k = record j {
        finalize =
            some (record f { annual_object_id = ids.annual j.cabinet j.year; phase = commit });
        status = queued;
      } in
      (
        schedule clock j.job_id 0
            (save clock k (record w { annual = insert (j.cabinet, j.year) file w.annual })),
        (
          reply queued "report_annual_uploaded",
          (
            rw (e, ok) refl,
            ground (
              arith,
              lookup-insert (j.cabinet, j.year) (j.cabinet, j.year) file w.annual,
              streq_iff j.cabinet j.cabinet,
            ),
            refl,
            refl,
          ),
        ),
      )

module _ {lib : Library} (s : Setup) (r : Remote lib) (clock : Clock) (ids : Ids)
    (uploader : Option ℕ) (j : Job) (f : Finalize) (w : World lib) (c : r.Cloud) where
  -- When a resumable upload step reaches COMMIT, the queue's own upload step on the same job and
  -- stores would have returned with the same annual file, if the recorded hash is in lower case.
  pub resumable_agrees :
      f.phase ≡ upload_annual
      → r.lower f.annual_sha256 ≡ f.annual_sha256
      → (result r clock ids uploader j f w c).1.finalize.phase ≡ commit
      → PlainUploads s clock ids j f w
          (lookup (j.cabinet, j.year) (result r clock ids uploader j f w c).1.world.annual)
  unfolding IsCommitted target
  resumable_agrees p l e = elim (commit_is-Verified r clock ids uploader j f w c p) [
    | inl q ↦ cc (q, e)
    | inr (h, (file, (a, z, (n, x))), d) ↦ rw a (plain_uploads s clock ids j f w file z n (x ∙ l))
  ]
