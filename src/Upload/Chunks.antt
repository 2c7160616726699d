-- ===== src/Upload/Chunks.antt =====
-- A chunk of `_upload_step` of app/core/archive_resumable_worker.py: from an early memory it ends
-- finished, or stopped.
use mcp_yandex_cloud_infra.Prelude.{
  ℕ, ◌+◌, ◌-◌, ◌≡◌, refl, sym, min, String, not, Option, none, some, nat_eq, string_eq, arith, ◌==◌,
  leb, ltb,
}
use mcp_yandex_cloud_infra.Dict.{Dict, lookup}
use mcp_yandex_cloud_infra.Json.{Json}
use mcp_yandex_cloud_infra.Finance.Csv.{Library}
use mcp_yandex_cloud_infra.Queue.State.{Job, Upload, World, Clock, queued, Reply, reply}
use mcp_yandex_cloud_infra.Upload.Remote
use mcp_yandex_cloud_infra.Upload.Remote.{Remote, Memory, Meta, described}
use mcp_yandex_cloud_infra.Upload.Act.{Act}
use mcp_yandex_cloud_infra.Upload.Session.{Progress, incomplete, complete_with, expired}
use mcp_yandex_cloud_infra.Upload.Record.{
  with_upload, synced, recorded, with_status, saved, scheduled,
}
use mcp_yandex_cloud_infra.Upload.Finish.{Target}
use mcp_yandex_cloud_infra.Upload.Chunk
use mcp_yandex_cloud_infra.Upload.Chunk.{
  go_on_later, read_yandex_range, send_chunk, continue_upload, only_previous, queued_again,
}
use mcp_yandex_cloud_infra.Upload.Logic.{
  Runs, give-Runs, value-Runs, refuse-Runs, fail-Runs, if_Runs, bind-Runs, change-Runs,
  two_changes-Runs, read-Runs, given-Runs, errors-Runs,
}
use mcp_yandex_cloud_infra.Upload.Sound.{IsSame, IsEarly, IsStopped, IsFinished}
use mcp_yandex_cloud_infra.Upload.Stages.{
  early_is-Late, early_is-Stopped, save-Early, schedule-Finished,
}
use mcp_yandex_cloud_infra.Upload.Requests.{
  StaysEarly, cloud-StaysEarly, query-StaysEarly, upload_chunk-StaysEarly,
}
use mcp_yandex_cloud_infra.Upload.Finishes.{finish-Runs}

module _ {lib : Library} (r : Remote lib) (clock : Clock) (t : Target) (j : Job)
    (w : World lib) where
  -- From an early memory the operation finishes or stops.
  abbrev pub Completes : Act lib r.Cloud Reply → Type 0
  Completes act =
      Runs (IsEarly r clock t j w) act (λ _. IsFinished r clock t j w) (IsStopped r clock t j w)

  abbrev pub early :
      {A : Type 0} {act : Act lib r.Cloud A}
      → StaysEarly r clock t j w act
      → Runs (IsEarly r clock t j w) act (λ _. IsEarly r clock t j w) (IsStopped r clock t j w)
  early h = errors-Runs (early_is-Stopped r clock t j w) h

  saved_early :
      (m : Memory lib r.Cloud)
      → IsEarly r clock t j w m
      → IsFinished r clock t j w (scheduled r clock 0 (saved r clock m))
  unfolding IsEarly
  saved_early m (s, a, p, n, d) =
      schedule-Finished r clock t j w m 0
        (early_is-Late r clock t j w (saved r clock m) (save-Early r clock t j w m (s, a, p, n, d)))
        d

  pub go_on-Completes : (action : String) → Completes (go_on_later r clock action)
  unfolding go_on_later
  go_on-Completes action =
      two_changes-Runs (IsFinished r clock t j w) (saved r clock) (scheduled r clock 0) saved_early
        (value-Runs (λ m. reply m.job.status action) (λ m p. p))

  -- A change of the upload alone.
  pub upload_early :
      (u : Upload) (m : Memory lib r.Cloud)
      → IsEarly r clock t j w m
      → IsEarly r clock t j w (with_upload r u m)
  unfolding IsEarly IsSame
  upload_early u m p = p

  pub synced_early :
      (m : Memory lib r.Cloud)
      → IsEarly r clock t j w m
      → IsEarly r clock t j w (synced r (some t.candidate_id) m)
  unfolding IsEarly IsSame
  synced_early m p = p

  pub status_early :
      (m : Memory lib r.Cloud)
      → IsEarly r clock t j w m
      → IsEarly r clock t j w (with_status r queued none m)
  unfolding IsEarly IsSame
  status_early m p = p

  pub queued_early :
      (m : Memory lib r.Cloud)
      → IsEarly r clock t j w m
      → IsEarly r clock t j w (queued_again r clock m)
  unfolding IsEarly IsSame
  queued_early m p = p

  pub recorded_early :
      (name : String) (fields : Dict String Json) (m : Memory lib r.Cloud)
      → IsEarly r clock t j w m
      → IsEarly r clock t j w (recorded r clock name fields m)
  unfolding IsEarly IsSame
  recorded_early name fields m p = p

  restart-Completes : (u : Upload) → Completes (Chunk.restart_session r clock u)
  restart-Completes u =
      change-Runs _ (with_upload r (only_previous u)) (upload_early _)
        (change-Runs _ (queued_again r clock) queued_early (go_on-Completes _))

  restart_after_chunk-Completes : (u : Upload) → Completes (Chunk.restart_after_chunk r clock u)
  restart_after_chunk-Completes u =
      change-Runs _ (with_upload r (only_previous u)) (upload_early _)
        (change-Runs _ (with_status r queued none) status_early (go_on-Completes _))

  confirm-Completes : (u : Upload) (n : ℕ) → Completes (Chunk.confirm_chunk r clock t u n)
  confirm-Completes u n =
      if_Runs (ltb t.expected_bytes n) (λ q. fail-Runs _ (early_is-Stopped r clock t j w))
        (λ q.
          change-Runs _ (with_upload r (record u { offset = n; retry_count = 0 })) (upload_early _)
            (change-Runs _ (synced r (some t.candidate_id)) synced_early (
              change-Runs _ (recorded r clock "RESUMABLE_CHUNK_CONFIRMED" _) (recorded_early _ _)
                (change-Runs _ (with_status r queued none) status_early (go_on-Completes _)))))

  after_upload-Completes :
      (u : Upload) (p : Progress) → Completes (Chunk.after_upload r clock t u p)
  after_upload-Completes u expired = restart_after_chunk-Completes u
  after_upload-Completes u (complete_with id) = finish-Runs r clock t j w id
  after_upload-Completes u (incomplete n) = confirm-Completes u n

  -- The bytes that are read of the candidate.
  abbrev IsSlice : ℕ → ℕ → lib.Bytes → Type 0
  IsSlice start end chunk =
      (file : lib.Bytes) × ((lookup j.job_id w.candidates ≡ some file)
        × (chunk ≡ r.slice start end file))

  candidate_is-Same :
      (m : Memory lib r.Cloud)
      → IsEarly r clock t j w m
      → lookup m.job.job_id m.world.candidates ≡ lookup j.job_id w.candidates
  unfolding IsEarly IsSame
  candidate_is-Same m ((i, c, y, k, g, o), a, p, n, d) = rw (i, k) refl

  range-Runs :
      (start end : ℕ) (o : Option lib.Bytes) (n : Memory lib r.Cloud)
      → lookup j.job_id w.candidates ≡ o
      → Runs
          (λ m. (m ≡ n) × IsEarly r clock t j w m)
          (Chunk.range_of r clock start end o)
          (λ chunk m. IsSlice start end chunk × IsEarly r clock t j w m)
          (IsStopped r clock t j w)
  range-Runs start end none n e = refuse-Runs _ _ _ (λ m p. early_is-Stopped r clock t j w m p.1)
  range-Runs start end (some file) n e = give-Runs _ (λ m p. ((file, (e, refl)), p.1))

  read_range-Runs :
      (id : String) (start end : ℕ)
      → Runs
          (IsEarly r clock t j w)
          (read_yandex_range r clock id start end)
          (λ chunk m. IsSlice start end chunk × IsEarly r clock t j w m)
          (IsStopped r clock t j w)
  unfolding read_yandex_range
  read_range-Runs id start end =
      bind-Runs (λ _. IsEarly r clock t j w)
        (early (cloud-StaysEarly r clock t j w (r.store (Remote.get_range id start end))))
        (λ _.
          read-Runs (λ m. Chunk.range_of r clock start end (lookup m.job.job_id m.world.candidates))
            (λ n h. range-Runs start end _ n (sym (candidate_is-Same n h))))

  send-Completes : (chunk_size : ℕ) (u : Upload) → Completes (send_chunk r clock t chunk_size u)
  unfolding send_chunk
  send-Completes chunk_size u =
      let end = min t.expected_bytes (u.offset + chunk_size) in
      bind-Runs (λ chunk m. IsSlice u.offset end chunk × IsEarly r clock t j w m)
        (read_range-Runs t.candidate_id u.offset end)
        (λ chunk.
          if_Runs (not (lib.size chunk == end - u.offset))
            (λ q. fail-Runs _ (λ m p. early_is-Stopped r clock t j w m p.1))
            (λ q. given-Runs (λ (file, (e, c)).
              bind-Runs (λ _. IsEarly r clock t j w)
                (early (
                  upload_chunk-StaysEarly r clock t j w u.session_uri u.offset end file chunk e c
                    (ground (arith, q)) (omega arith)))
                (after_upload-Completes u))))

  after_last-Completes :
      (u : Upload) (p : Progress) → Completes (Chunk.after_last_query r clock t u p)
  after_last-Completes u expired = restart-Completes u
  after_last-Completes u (complete_with id) = finish-Runs r clock t j w id
  after_last-Completes u (incomplete n) =
      change-Runs _ (with_upload r (record u { offset = n })) (upload_early _) (go_on-Completes _)

  pub continue-Completes :
      (chunk_size : ℕ) (u : Upload) → Completes (continue_upload r clock t chunk_size u)
  unfolding continue_upload
  continue-Completes chunk_size u =
      if_Runs (leb t.expected_bytes u.offset)
        (λ q.
          bind-Runs (λ _. IsEarly r clock t j w)
            (early (query-StaysEarly r clock t j w u.session_uri)) (after_last-Completes u))
        (λ q. send-Completes chunk_size u)
