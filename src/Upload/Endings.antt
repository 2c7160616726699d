-- ===== src/Upload/Endings.antt =====
-- The end of an upload: `_verify_candidate_and_backup`, `promote_verified_file`,
-- `_mark_commit_ready` and `_finish_staged_upload` on the way to COMMIT.
use mcp_yandex_cloud_infra.Prelude.{
  ◌≡◌, inl, inr, refl, String, not, Option, none, some, ◌∷◌, In, nat_eq, string_eq, pair_eq, arith,
  ◌==◌, streq_iff,
}
use mcp_yandex_cloud_infra.Dict.{lookup, insert, lookup-insert}
use mcp_yandex_cloud_infra.Finance.Csv.{Library}
use mcp_yandex_cloud_infra.Queue.State.{Job, World, Clock}
use mcp_yandex_cloud_infra.Upload.Remote
use mcp_yandex_cloud_infra.Upload.Remote.{
  Remote, Memory, Meta, Promotion, Promoted, Exchange, described, mirrored, promotion_sent, Outcome,
}
use mcp_yandex_cloud_infra.Upload.Act.{noted}
use mcp_yandex_cloud_infra.Upload.Finish
use mcp_yandex_cloud_infra.Upload.Finish.{
  Target, metadata_matches, verify_candidate_and_backup, mark_commit_ready, promote_staged,
  finish_staged_upload, size_agrees, promotion_of,
}
use mcp_yandex_cloud_infra.Upload.Logic.{
  Runs, give-Runs, refuse-Runs, fail-Runs, given-Runs, if_Runs, bind-Runs, seq-Runs, change-Runs,
  read-Runs, cloud-Runs,
}
use mcp_yandex_cloud_infra.Upload.Sound.{IsJustified, WasExact, IsExact, IsSame, IsEarly}
use mcp_yandex_cloud_infra.Upload.Requests.{
  StaysEarly, give-StaysEarly, refuse-StaysEarly, note-Early,
}

module _ {lib : Library} (r : Remote lib) (clock : Clock) (t : Target) (j : Job)
    (w : World lib) where
  -- The annual backup is the exact candidate, and it was noted.
  unfoldable pub IsBackedUp : Memory lib r.Cloud → Type 0
  unfolding lookup
  IsBackedUp m =
      (file : lib.Bytes) × ((lookup (j.cabinet, j.year) m.world.annual ≡ some file)
        × (lookup j.job_id w.candidates ≡ some file)
        × IsExact lib t file
        × In (mirrored file) m.log)

  abbrev Early : Memory lib r.Cloud → Type 0
  Early m = IsEarly r clock t j w m

  downloaded-StaysEarly : (o : Option lib.Bytes) → StaysEarly r clock t j w (Finish.downloaded r o)
  downloaded-StaysEarly none = refuse-StaysEarly r clock t j w _ _ _
  downloaded-StaysEarly (some file) = give-StaysEarly r clock t j w file

  -- Early, with an exact file of the id.
  unfoldable pub IsEarlyExact : String → Memory lib r.Cloud → Type 0
  unfolding IsEarly metadata_matches
  IsEarlyExact file_id m = WasExact r t file_id m.log × IsEarly r clock t j w m

  exact_is-Early : (id : String) (m : Memory lib r.Cloud) → IsEarlyExact id m → Early m
  unfolding IsEarlyExact
  exact_is-Early id m (x, e) = e

  found-Runs :
      (id : String) (o : Option lib.Bytes) (n : Memory lib r.Cloud)
      → lookup j.job_id w.candidates ≡ o
      → Runs
          (λ m. (m ≡ n) × IsEarlyExact id m)
          (Finish.downloaded r o)
          (λ file m. (lookup j.job_id w.candidates ≡ some file) × IsEarlyExact id m)
          Early
  found-Runs id none n e = refuse-Runs _ _ _ (λ m p. exact_is-Early id m p.1)
  found-Runs id (some file) n e = give-Runs file (λ m p. (e, p.1))

  candidate_is-Same :
      (id : String) (m : Memory lib r.Cloud)
      → IsEarlyExact id m
      → lookup j.job_id w.candidates ≡ lookup m.job.job_id m.world.candidates
  unfolding IsEarlyExact IsEarly IsSame
  candidate_is-Same id m (x, ((i, c, y, k, g, o), a, p, n, d)) = rw (i, k) refl

  download_candidate-Runs :
      (id candidate_id : String)
      → Runs
          (IsEarlyExact id)
          (Finish.download_candidate r candidate_id)
          (λ file m. (lookup j.job_id w.candidates ≡ some file) × IsEarlyExact id m)
          Early
  unfolding IsEarlyExact IsEarly IsSame
  download_candidate-Runs id candidate_id =
      bind-Runs (λ _. IsEarlyExact id)
        (cloud-Runs (r.store (Remote.get_object candidate_id)) (λ m c p. p) (λ m p. p.1))
        (λ _.
          read-Runs (λ m. Finish.downloaded r (lookup m.job.job_id m.world.candidates))
            (λ n h.
              found-Runs id (lookup n.job.job_id n.world.candidates) n (candidate_is-Same id n h)))

  -- The backup is written under the job's cabinet and year.
  unfoldable IsWritten : lib.Bytes → Memory lib r.Cloud → Type 0
  unfolding lookup
  IsWritten file m =
      (lookup (j.cabinet, j.year) m.world.annual ≡ some file)
      × (lookup j.job_id w.candidates ≡ some file)
      × IsExact lib t file

  write_is-Written :
      (id : String) (file : lib.Bytes) (m : Memory lib r.Cloud)
      → lookup j.job_id w.candidates ≡ some file
      → IsExact lib t file
      → IsEarlyExact id m
      → IsWritten file (record m {
        world = record m.world { annual = insert (m.job.cabinet, m.job.year) file m.world.annual };
      })
        × IsEarlyExact id (record m {
          world = record m.world {
            annual = insert (m.job.cabinet, m.job.year) file m.world.annual;
          };
        })
  unfolding IsEarlyExact IsEarly IsSame IsWritten
  write_is-Written id file m z e (x, ((i, c, y, k, g, o), a, p, n, d)) = (
    (
      ground (
        arith,
        c,
        y,
        lookup-insert (m.job.cabinet, m.job.year) (j.cabinet, j.year) file m.world.annual,
        streq_iff m.job.cabinet j.cabinet,
      ),
      z,
      e,
    ),
    (x, ((i, c, y, k, g, o), a, p, n, d)),
  )

  note_is-BackedUp :
      (id : String) (file : lib.Bytes) (m : Memory lib r.Cloud)
      → IsWritten file m × IsEarlyExact id m
      → IsBackedUp (record m { log = mirrored file ∷ m.log })
        × IsEarlyExact id (record m { log = mirrored file ∷ m.log })
  unfolding IsEarlyExact IsWritten IsBackedUp IsJustified
  note_is-BackedUp id file m ((l, z, e), ((meta, (i, h)), p)) = (
    (file, (l, z, e, inl refl)),
    ((meta, (inr i, h)), note-Early r clock t j w (mirrored file) m e (λ q z. cc z) p),
  )

  upload_backup-Runs :
      (id name : String) (file : lib.Bytes)
      → lookup j.job_id w.candidates ≡ some file
      → IsExact lib t file
      → Runs
          (IsEarlyExact id)
          (Finish.upload_backup r name file)
          (λ _ m. IsBackedUp m × IsEarlyExact id m)
          Early
  unfolding IsEarlyExact IsEarly IsSame IsBackedUp
  upload_backup-Runs id name file z e =
      seq-Runs (IsEarlyExact id)
        (cloud-Runs (r.store (Remote.put_object name)) (λ m c p. p) (λ m p. p.1))
        (change-Runs (λ m. IsWritten file m × IsEarlyExact id m) (Finish.annual_written r file)
          (λ m p. write_is-Written id file m z e p)
          (change-Runs (λ m. IsBackedUp m × IsEarlyExact id m) (noted (mirrored file))
            (λ m p. note_is-BackedUp id file m p)
            (cloud-Runs (r.store (Remote.head_object name)) (λ m c p. p) (λ m p. p.1.1))))

  pub verify-Runs :
      (id : String)
      → Runs
          (IsEarlyExact id)
          (verify_candidate_and_backup r t)
          (λ _ m. IsBackedUp m × IsEarlyExact id m)
          Early
  unfolding verify_candidate_and_backup
  verify-Runs id =
      bind-Runs (λ file m. (lookup j.job_id w.candidates ≡ some file) × IsEarlyExact id m)
        (download_candidate-Runs id t.candidate_id)
        (λ file. given-Runs (λ z.
          if_Runs (not (lib.size file == t.expected_bytes)) (λ q. fail-Runs _ (exact_is-Early id))
            (λ a.
              if_Runs (not (lib.sha256 file == t.expected_sha))
                (λ q. fail-Runs _ (exact_is-Early id))
                (λ b.
                  seq-Runs (λ m. IsBackedUp m × IsEarlyExact id m)
                    (upload_backup-Runs id t.annual_name file z (
                      ground (arith, a),
                      ground (arith, b, streq_iff (lib.sha256 file) t.expected_sha),
                    ))
                    (if_Runs (size_agrees (r.listed_size file) t.expected_bytes)
                      (λ q. give-Runs tt (λ m p. p))
                      (λ q. fail-Runs _ (λ m p. exact_is-Early id m p.1)))))))
