-- ===== src/Upload/Worker.antt =====
-- app/core/archive_resumable_worker.py: `worker_step`, which runs the upload step itself and leaves
-- the other phases of a job to the queue.
use mcp_yandex_cloud_infra.Prelude.{
  ℕ, String, Bool, true, false, not, Option, none, some, List, [], string_eq, ◌==◌, if◌then◌else◌,
}
use mcp_yandex_cloud_infra.Finance.Csv.{Library}
use mcp_yandex_cloud_infra.Queue.State.{
  Job, Finalize, upload_annual, World, Step, done, raised, Clock, Reply, reply, queued, complete,
  load, save, schedule, unschedule, next_due,
}
use mcp_yandex_cloud_infra.Queue.Discover.{Setup}
use mcp_yandex_cloud_infra.Queue.Finalize.{Ids}
use mcp_yandex_cloud_infra.Queue.Waiting.{ceil_seconds}
use mcp_yandex_cloud_infra.Queue.Worker
use mcp_yandex_cloud_infra.Upload.Remote.{
  Remote, Memory, Outcome, value, storage_error, runtime_error, Exchange,
}
use mcp_yandex_cloud_infra.Upload.Step.{upload_step}

-- Whether the finalize state is at the upload; a job without one is not.
abbrev pub is_upload_phase : Option Finalize → Bool
is_upload_phase none = false
is_upload_phase (some f) = elim f.phase [ upload_annual ↦ true | _ ↦ false ]

module _ {lib : Library} (r : Remote lib) where
  -- What a step leaves: the stores with its answer, the cloud, and what was exchanged.
  abbrev pub Ran : Type 0
  Ran = Step lib × (r.Cloud × List (Exchange lib.Bytes))

  abbrev pub ended : Outcome Reply × Memory lib r.Cloud → Ran
  ended (value p, m) = (done m.world p, (m.cloud, m.log))
  ended (storage_error e, m) = (raised m.world e.message, (m.cloud, m.log))
  ended (runtime_error e, m) = (raised m.world e, (m.cloud, m.log))

  abbrev not_found : Reply
  not_found = record {
    ok = false;
    status = none;
    action = "";
    retry_after = 0;
    error = some "archive_job_not_found";
  }

  abbrev worker_busy : Reply
  worker_busy = record {
    ok = true;
    status = none;
    action = "worker_busy";
    retry_after = 2;
    error = none;
  }

  abbrev pub memory_of : Job → Finalize → World lib → r.Cloud → Memory lib r.Cloud
  memory_of j f w c = record { cloud = c; world = w; job = j; finalize = f; log = [] }

  module _ (s : Setup) (ids : Ids) (uploader : Option ℕ) (clock : Clock) where
    -- Another worker has finished the upload of this job since it was read.
    abbrev pub already_advanced : Job → World lib → Step lib
    already_advanced j w =
        done (schedule clock j.job_id 0 (save clock (record j { status = queued }) w))
          (reply queued "upload_phase_already_advanced")

    abbrev pub upload_or_advanced : Option Finalize → Job → World lib → r.Cloud → Ran
    upload_or_advanced none j w c = (already_advanced j w, (c, []))
    upload_or_advanced (some f) j w c =
        if is_upload_phase (some f)
        then ended (upload_step r clock ids uploader (memory_of j f w c))
        else (already_advanced j w, (c, []))

    -- The job as it is under the lock.
    unfoldable pub under_lock : String → Option Job → World lib → r.Cloud → Ran
    unfolding upload_step save schedule unschedule
    under_lock job_id none w c = (done (unschedule job_id w) not_found, (c, []))
    under_lock job_id (some j) w c =
        if Worker.is_complete j.status
        then (done (unschedule job_id w) (reply complete "noop"), (c, []))
        else upload_or_advanced j.finalize j w c

    -- `others` is what other workers write between the first reading and the lock.
    abbrev pub with_job :
        (World lib → World lib) → Bool → String → Option Job → World lib → r.Cloud → Ran
    with_job others locked job_id none w c = (done (unschedule job_id w) not_found, (c, []))
    with_job others locked job_id (some j) w c =
        if not (is_upload_phase j.finalize)
        then (Worker.worker_step s ids locked clock job_id w, (c, []))
        else if locked
        then (done (others w) worker_busy, (c, []))
        else under_lock job_id (load job_id (others w)) (others w) c

    abbrev idle_or : (World lib → World lib) → Bool → Option String × ℕ → World lib → r.Cloud → Ran
    idle_or others locked (some job_id, wait) w c =
        with_job others locked job_id (load job_id w) w c
    idle_or others locked (none, wait) w c = (
      done w (record {
        ok = true;
        status = none;
        action = "idle";
        retry_after = ceil_seconds wait;
        error = none;
      }),
      (c, []),
    )

    unfoldable pub resumable_worker_step :
        (World lib → World lib) → Bool → String → World lib → r.Cloud → Ran
    unfolding under_lock load next_due
    resumable_worker_step others locked job_id w c =
        if job_id == ""
        then idle_or others locked (next_due Worker.text_lt clock w) w c
        else with_job others locked job_id (load job_id w) w c
