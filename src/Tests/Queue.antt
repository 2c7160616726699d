-- ===== src/Tests/Queue.antt =====
-- One job of the archive queue against a provider that answers with one row.
use mcp_yandex_cloud_infra.Prelude.{
  ◌≡◌, ◌≢◌, refl, ap, sym, ◌⊎◌, String, true, false, Option, none, some, List, [], ◌∷◌, ◌++◌, arith,
  length, string_eq, nat_eq, pair_eq,
}
use mcp_yandex_cloud_infra.Dict.{Dict, lookup}
use mcp_yandex_cloud_infra.Json.{Json, num, arr, obj, nil, cons, field, end}
use mcp_yandex_cloud_infra.Finance.Fragments.{ReportFragment}
use mcp_yandex_cloud_infra.Queue.Telemetry.{no_telemetry, Subject}
use mcp_yandex_cloud_infra.Queue.Telemetry.Capped.{Called, AreItems, record_events, events_are-Last}
use mcp_yandex_cloud_infra.Queue.State.{
  no_upload, Job, Finalize, upload_annual, queued, complete, download, Payload, World, Step, done,
  reply, Clock, load, save, schedule,
}
use mcp_yandex_cloud_infra.Finance.Csv.{parse_csv_bytes}
use mcp_yandex_cloud_infra.Finance.Annual.{merge_annual_csv, all_names, with_keys, add_rows}
use mcp_yandex_cloud_infra.Queue.Waiting.{wait_or_fail}
use mcp_yandex_cloud_infra.Queue.Discover.{Setup, rows_of}
use mcp_yandex_cloud_infra.Queue.Download.{download_step}
use mcp_yandex_cloud_infra.Queue.Finalize.{Ids, finalize_step}
use mcp_yandex_cloud_infra.Queue.Worker.{step_job, worker_step, enqueue, job_name}
use mcp_yandex_cloud_infra.Queue.Worker.Enqueue.{IsQueued, enqueue_is_idempotent}
use mcp_yandex_cloud_infra.Queue.Worker.Writes.{IsVerified, IsRegistered, writes_are-IsVerified}
use mcp_yandex_cloud_infra.Queue.Worker.Idle.{Picks, Idles, idle_step-Picks}
use mcp_yandex_cloud_infra.Queue.Worker.Ends.{IsPlaced, Advances}
use mcp_yandex_cloud_infra.Queue.Worker.Progress.{
  IsContained, job_never_lost, queued_job-Advances, step-IsContained,
}
use mcp_yandex_cloud_infra.Tests.Data.{files, dates}

abbrev subject : Subject
subject = record {
  job_id = "j";
  report_id = 7;
  phase = "COMMIT";
  annual_bytes = 10;
  annual_sha256 = "0";
}

abbrev started : Called
started = record { now = "now"; subject = subject; event = "COMMIT_STARTED"; fields = [] }

events_are-Last_example :
    (items : List (Dict String Json)) × (older : List (Dict String Json)) × (AreItems
        (started ∷ [])
        items
      × (items ≡ older ++ (record_events (λ j n. j) (started ∷ []) no_telemetry).events)
      × (length (record_events (λ j n. j) (started ∷ []) no_telemetry).events ≡ 1))
events_are-Last_example = events_are-Last (λ j n. j) (started ∷ []) no_telemetry (omega arith)

abbrev row : Json
row = obj (field "reportType" (num 1) (field "reportId" (num 7) (field "rrdId" (num 1) end)))

abbrev answer : Payload
answer = record {
  ok = true;
  status = 200;
  body = arr (cons row nil);
  error_type = "";
  error = "";
  message = "";
  code = 0;
  retryable = false;
  retry_after_seconds = 0;
  retry_after_sec = 0;
  shown = "";
}

abbrev pub setup : Setup
setup = record {
  dates = dates;
  provider = λ n r. answer;
  credentials = λ c. none;
  has_listing = true;
  has_detail = true;
  year_first = λ y. "2025-01-01";
  year_last = λ y. "2025-12-31";
  cut = λ s. s;
  correlation_id = λ j n. j;
}

abbrev ids : Ids
ids = record { candidate = λ j. j; annual = λ c y. c; annual_name = λ c y. c }

abbrev clock : Clock
clock = record { time = 1000; utc = "now" }

abbrev fragment : ReportFragment
fragment = record {
  report_id = 7;
  date_from = "x";
  date_to = "y";
  create_date = "";
  report_type = 1;
  logical_week_from = "x";
  logical_week_to = "y";
}

-- A job that downloads report 7.
abbrev job : Job
job = record {
  job_id = "j";
  cabinet = "A";
  year = 2025;
  token_type = "base";
  status = queued;
  phase = download;
  discovery_offset = 0;
  fragments = fragment ∷ [];
  report_index = 0;
  current_rrd_id = 0;
  provider_calls = 0;
  completed_report_ids = [];
  last_retry_after = 0;
  last_error = none;
  finalize = none;
  last_telemetry = none;
  created_at = "then";
  updated_at = "then";
}

abbrev world : World files
world = record {
  jobs = ("j", job) ∷ [];
  due = ("j", 0) ∷ [];
  registry = none;
  annual = [];
  staging = [];
  candidates = [];
  requests = [];
}

abbrev world_of : Step files → World files
world_of (done w r) = w
world_of _ = world

abbrev stepped : World files
stepped = world_of (step_job setup ids false clock "j" world)

abbrev moved : Job
moved = record job { status = queued; provider_calls = 1; current_rrd_id = 1; updated_at = "now" }

abbrev name_of : Option Job → String
name_of none = ""
name_of (some j) = j.job_id

step-IsContained_example : IsContained "j" world (step_job setup ids false clock "j" world)
unfolding load lookup
step-IsContained_example =
    step-IsContained setup ids clock false "j" world (λ j e. ap name_of (sym e))

not_complete : queued ≢ complete
not_complete e = cc e

job_never_lost_example :
    (k : Job) × ((load "j" stepped ≡ some k)
      × (k.job_id ≡ "j")
      × IsPlaced clock k (lookup "j" stepped.due))
unfolding load lookup step_job download_step wait_or_fail rows_of merge_annual_csv all_names
    parse_csv_bytes with_keys add_rows schedule save
job_never_lost_example =
    job_never_lost setup ids clock job world stepped (reply queued "report_page_staged") refl
      not_complete refl

queued_job-Advances_example : Advances job moved
unfolding load lookup step_job download_step wait_or_fail rows_of merge_annual_csv all_names
    parse_csv_bytes with_keys add_rows schedule save
queued_job-Advances_example =
    queued_job-Advances setup ids clock job world stepped (reply queued "report_page_staged") refl
      not_complete refl moved refl refl

abbrev no_job : World files
no_job = record world { jobs = []; due = [] }

abbrev named : String → Option String
named s = some "A"

abbrev name : String
name = job_name (λ y. "2025") "A" 2025

abbrev enqueued : World files
enqueued = world_of (enqueue setup (λ y. "2025") 2026 named (λ c. "base") clock 2025 "a" no_job)

enqueue_is_idempotent_example :
    ((k : String) (j : Job) → load k no_job ≡ some j → load k enqueued ≡ some j)
    × ((c : String) × ((named "a" ≡ some c)
          × IsQueued clock (job_name (λ y. "2025") c 2025) enqueued))
unfolding enqueue load save schedule
enqueue_is_idempotent_example =
    enqueue_is_idempotent setup (λ y. "2025") 2026 named (λ c. "base") clock 2025 "a" no_job
      enqueued (reply queued "created") refl

abbrev candidate : files.Bytes
candidate = ("rrdId" ∷ [], ("1" ∷ []) ∷ [])

abbrev upload : Finalize
upload = record {
  report_id = 7;
  phase = upload_annual;
  report_rows = 1;
  annual_rows = 1;
  annual_bytes = 2;
  annual_sha256 = "1";
  ingested_at = "then";
  annual_object_id = "";
  resumable_upload = no_upload;
  resumable_upload_verified = none;
  telemetry = no_telemetry;
}

abbrev uploading : World files
uploading = record world { candidates = ("j", candidate) ∷ [] }

abbrev uploaded : World files
uploaded =
    world_of
      (finalize_step setup ids clock (record job { finalize = some upload }) upload uploading)

writes_are-IsVerified_example :
    ((uploaded.annual ≡ uploading.annual)
      ⊎ IsVerified (record job { finalize = some upload }) upload uploading uploaded)
    × ((uploaded.registry ≡ uploading.registry) ⊎ IsRegistered upload uploading uploaded)
unfolding finalize_step lookup
writes_are-IsVerified_example =
    writes_are-IsVerified setup ids clock (record job { finalize = some upload }) upload uploading
      uploaded (reply queued "report_annual_uploaded") refl

idle_step-Picks_example :
    Picks setup ids false clock world (worker_step setup ids false clock "" world)
    ⊎ Idles setup ids false clock world (worker_step setup ids false clock "" world)
idle_step-Picks_example = idle_step-Picks setup ids false clock world
