-- ===== src/Upload/Record.antt =====
-- app/core/archive_resumable_worker.py: how a step changes and saves the finalize state.
use mcp_yandex_cloud_infra.Prelude.{ℕ, String, Option, some}
use mcp_yandex_cloud_infra.Dict.{Dict}
use mcp_yandex_cloud_infra.Json.{Json}
use mcp_yandex_cloud_infra.Finance.Csv.{Library}
use mcp_yandex_cloud_infra.Queue.State.{
  Job, Upload, Clock, subject, save, schedule, unschedule, Status,
}
use mcp_yandex_cloud_infra.Queue.Telemetry.{
  UploadSubject, record_finalize_event, sync_resumable_telemetry,
}
use mcp_yandex_cloud_infra.Upload.Remote.{Remote, Memory}
use mcp_yandex_cloud_infra.Upload.Act.{Act, change}

abbrev upload_subject : Upload → UploadSubject
upload_subject u = record {
  target_file_id = u.target_file_id;
  staged_file_id = u.staged_file_id;
  previous_canonical_file_id = u.previous_canonical_file_id;
  offset = u.offset;
}

module _ {lib : Library} (r : Remote lib) where
  -- `finalize["resumable_upload"] = upload`
  abbrev pub with_upload : Upload → Memory lib r.Cloud → Memory lib r.Cloud
  with_upload u m = record m { finalize = record m.finalize { resumable_upload = u } }

  abbrev pub set_upload : Upload → Act lib r.Cloud (Unit {0})
  set_upload u = change (with_upload u)

  -- `sync_resumable_telemetry(state, finalize, candidate_object_id=...)`
  abbrev pub synced : Option String → Memory lib r.Cloud → Memory lib r.Cloud
  synced candidate m = record m {
    finalize = record m.finalize {
      telemetry =
          sync_resumable_telemetry r.correlation_id r.strip (subject m.job m.finalize)
            (upload_subject m.finalize.resumable_upload) candidate m.finalize.telemetry;
    };
  }

  abbrev pub sync : Option String → Act lib r.Cloud (Unit {0})
  sync candidate = change (synced candidate)

  -- `record_finalize_event(state, finalize, event, **fields)`
  abbrev pub recorded : Clock → String → Dict String Json → Memory lib r.Cloud → Memory lib r.Cloud
  recorded clock name fields m = record m {
    finalize = record m.finalize {
      telemetry =
          record_finalize_event r.correlation_id clock.utc (subject m.job m.finalize) name fields
            m.finalize.telemetry;
    };
  }

  abbrev pub event : Clock → String → Dict String Json → Act lib r.Cloud (Unit {0})
  event clock name fields = change (recorded clock name fields)

  -- `state["status"] = ...; state["last_error"] = ...`
  abbrev pub with_status : Status → Option String → Memory lib r.Cloud → Memory lib r.Cloud
  with_status s e m = record m { job = record m.job { status = s; last_error = e } }

  abbrev pub set_status : Status → Option String → Act lib r.Cloud (Unit {0})
  set_status s e = change (with_status s e)

  -- `await self.queue._save(state)` with `state["finalize"]` the changed dict.
  abbrev pub saved_job : Memory lib r.Cloud → Job
  saved_job m = record m.job { finalize = some m.finalize }

  abbrev pub saved : Clock → Memory lib r.Cloud → Memory lib r.Cloud
  saved clock m = record m { world = save clock (saved_job m) m.world }

  abbrev pub save_state : Clock → Act lib r.Cloud (Unit {0})
  save_state clock = change (saved clock)

  abbrev pub scheduled : Clock → ℕ → Memory lib r.Cloud → Memory lib r.Cloud
  scheduled clock delay m = record m { world = schedule clock m.job.job_id delay m.world }

  abbrev pub schedule_job : Clock → ℕ → Act lib r.Cloud (Unit {0})
  schedule_job clock delay = change (scheduled clock delay)

  abbrev pub unscheduled : Memory lib r.Cloud → Memory lib r.Cloud
  unscheduled m = record m { world = unschedule m.job.job_id m.world }

  abbrev pub unschedule_job : Act lib r.Cloud (Unit {0})
  unschedule_job = change unscheduled
