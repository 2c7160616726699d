-- ===== src/Queue/State.antt =====
-- app/core/archive_queue.py: the persisted job, the stores that it works on, and the small
-- operations `_save`, `_load`, `_schedule`, `_unschedule`, `_next_due`.
pub mod Earliest
use mcp_yandex_cloud_infra.Prelude.{
  ℕ, ◌+◌, ◌-◌, String, Bool, true, false, ◌&&◌, ◌||◌, Option, none, some, List, [], ◌∷◌, leb, ltb,
  nat_eq, string_eq, pair_eq, ◌==◌, if◌then◌else◌,
}
use mcp_yandex_cloud_infra.Dict.{Dict, lookup, insert, delete}
use mcp_yandex_cloud_infra.Json.{Json}
use mcp_yandex_cloud_infra.Finance.Csv.{Library}
use mcp_yandex_cloud_infra.Finance.Fragments.{ReportFragment}
use mcp_yandex_cloud_infra.Queue.Telemetry.{Telemetry, Subject}

pub data Status : Type 0 where
  queued running waiting_rate_limit waiting_retry complete failed : Status
  waiting_configuration promotion_pending : Status

-- `other` is a text that is neither, in a file that another program wrote.
pub data Phase : Type 0 where
  discover download : Phase
  other : String → Phase

pub data FinalizePhase : Type 0 where
  prepare upload_annual commit : FinalizePhase
  unknown : String → FinalizePhase

-- `finalize["resumable_upload"]`; a missing text is "", a missing number 0.
pub record Upload : Type 0 where
  pub session_uri : String
  pub offset : ℕ
  pub target_file_id : String
  pub staged_file_id : String
  pub chunk_bytes : ℕ
  pub staging_name : String
  pub previous_canonical_file_id : String
  pub retry_count : ℕ
  pub promotion_attempted : Bool
  pub recovered_completed_staging : Bool

-- The missing entry, and the empty dict.
abbrev pub no_upload : Upload
no_upload = record {
  session_uri = "";
  offset = 0;
  target_file_id = "";
  staged_file_id = "";
  chunk_bytes = 0;
  staging_name = "";
  previous_canonical_file_id = "";
  retry_count = 0;
  promotion_attempted = false;
  recovered_completed_staging = false;
}

-- `resumable_upload_verified` is its bytes and hash.
pub record Finalize : Type 0 where
  pub report_id : ℕ
  pub phase : FinalizePhase
  pub report_rows : ℕ
  pub annual_rows : ℕ
  pub annual_bytes : ℕ
  pub annual_sha256 : String
  pub ingested_at : String
  pub annual_object_id : String
  pub resumable_upload : Upload
  pub resumable_upload_verified : Option (ℕ × String)
  pub telemetry : Telemetry

abbrev pub phase_text : FinalizePhase → String
phase_text prepare = "PREPARE"
phase_text upload_annual = "UPLOAD_ANNUAL"
phase_text commit = "COMMIT"
phase_text (unknown s) = s

pub record Job : Type 0 where
  pub job_id : String
  pub cabinet : String
  pub year : ℕ
  pub token_type : String
  pub status : Status
  pub phase : Phase
  pub discovery_offset : ℕ
  pub fragments : List ReportFragment
  pub report_index : ℕ
  pub current_rrd_id : ℕ
  pub provider_calls : ℕ
  pub completed_report_ids : List ℕ
  pub last_retry_after : ℕ
  pub last_error : Option String
  pub finalize : Option Finalize
  pub last_telemetry : Option Telemetry
  pub created_at : String
  pub updated_at : String

-- What the telemetry of a job's finalize state is about.
abbrev pub subject : Job → Finalize → Subject
subject j f = record {
  job_id = j.job_id;
  report_id = f.report_id;
  phase = phase_text f.phase;
  annual_bytes = f.annual_bytes;
  annual_sha256 = f.annual_sha256;
}

-- One request to the provider: the listing of a cabinet's reports from an offset, or the rows of a
-- report after a row number.
pub data Request : Type 0 where
  list_reports : String → ℕ → ℕ → Request
  report_rows : String → ℕ → ℕ → Request

-- The dict that `call_spec` returns; a missing number is 0, a missing text "". Delays are
-- milliseconds. `shown` is `str(payload)`.
pub record Payload : Type 0 where
  pub ok : Bool
  pub status : ℕ
  pub body : Json
  pub error_type : String
  pub error : String
  pub message : String
  pub code : ℕ
  pub retryable : Bool
  pub retry_after_seconds : ℕ
  pub retry_after_sec : ℕ
  pub shown : String

-- The object store by the places that the job uses, the sorted set of due times, and the requests
-- made so far.
pub record World (lib : Library) : Type 0 where
  pub jobs : Dict String Job
  pub due : Dict String ℕ
  pub registry : Option lib.Bytes
  pub annual : Dict (String × ℕ) lib.Bytes
  pub staging : Dict (String × ℕ) lib.Bytes
  pub candidates : Dict String lib.Bytes
  pub requests : List Request

-- What a step returns to its caller; the other entries of the dict repeat the saved job.
pub record Reply : Type 0 where
  pub ok : Bool
  pub status : Option Status
  pub action : String
  pub retry_after : ℕ
  pub error : Option String

abbrev pub reply : Status → String → Reply
reply status action = record {
  ok = true;
  status = some status;
  action = action;
  retry_after = 0;
  error = none;
}

pub data Step (lib : Library) : Type 0 where
  done : World lib → Reply → Step lib
  raised : World lib → String → Step lib

-- The clock of one step: `time.time()` in milliseconds, and `_utc_now()`.
pub record Clock : Type 0 where
  pub time : ℕ
  pub utc : String

-- The first entry of the sorted set, by score and then by member.
abbrev pub earlier : (String → String → Bool) → String × ℕ → Option (String × ℕ) → String × ℕ
earlier text_lt e none = e
earlier text_lt e (some f) = if ltb e.1 f.1 || (e.1 == f.1 && text_lt e.0 f.0) then e else f

unfoldable pub first_due : (String → String → Bool) → Dict String ℕ → Option (String × ℕ)
first_due text_lt [] = none
first_due text_lt (e ∷ es) = some (earlier text_lt e (first_due text_lt es))

abbrev pub due_or_wait : ℕ → Option (String × ℕ) → Option String × ℕ
due_or_wait now none = (none, 0)
due_or_wait now (some (job_id, due)) = if leb due now then (some job_id, 0) else (none, due - now)

module _ {lib : Library} where
  unfoldable pub load : String → World lib → Option Job
  unfolding lookup
  load job_id w = lookup job_id w.jobs

  unfoldable pub save : Clock → Job → World lib → World lib
  unfolding insert
  save clock j w = record w { jobs = insert j.job_id (record j { updated_at = clock.utc }) w.jobs }

  unfoldable pub schedule : Clock → String → ℕ → World lib → World lib
  unfolding insert
  schedule clock job_id delay w = record w { due = insert job_id (clock.time + delay) w.due }

  unfoldable pub unschedule : String → World lib → World lib
  unfolding delete
  unschedule job_id w = record w { due = delete job_id w.due }

  unfoldable pub next_due : (String → String → Bool) → Clock → World lib → Option String × ℕ
  unfolding first_due
  next_due text_lt clock w = due_or_wait clock.time (first_due text_lt w.due)

  -- The ends of the steps: saved and due at once, or saved and off the queue.
  abbrev pub requeue : Clock → Job → ℕ → Reply → World lib → Step lib
  requeue clock j delay r w = done (schedule clock j.job_id delay (save clock j w)) r

  abbrev pub close : Clock → Job → Reply → World lib → Step lib
  close clock j r w = done (unschedule j.job_id (save clock j w)) r
