-- ===== src/Queue/Worker.antt =====
-- app/core/archive_queue.py: `enqueue` and `worker_step`.
pub mod Ends
pub mod Steps
pub mod Reports
pub mod Progress
pub mod Writes
pub mod Enqueue
pub mod Idle
use Prim.Native.String.{◌++◌ as str_append}
use Prim.Native.Nat.{Ordering}
use Prim.Native.String.{compare}
use mcp_yandex_cloud_infra.Prelude.{
  ℕ, ◌+◌, String, Bool, true, false, ◌||◌, not, Option, none, some, List, [], length, ltb,
  string_eq, ◌==◌, if◌then◌else◌,
}
use mcp_yandex_cloud_infra.Dict.{lookup, insert}
use mcp_yandex_cloud_infra.Finance.Csv.{Library}
use mcp_yandex_cloud_infra.Queue.State.{
  Job, Status, queued, running, waiting_rate_limit, waiting_retry, complete, failed, Phase,
  discover, download, other, World, Step, done, raised, Reply, reply, Clock, load, save, schedule,
  unschedule, next_due, close, Finalize, FinalizePhase,
}
use mcp_yandex_cloud_infra.Queue.Telemetry.{Telemetry, public_finalize_telemetry}
use mcp_yandex_cloud_infra.Queue.Waiting.{ceil_seconds}
use mcp_yandex_cloud_infra.Queue.Discover.{Setup, discover_step, with_credentials}
use mcp_yandex_cloud_infra.Queue.Download.{download_step}
use mcp_yandex_cloud_infra.Queue.Finalize.{Ids, finalize_step}

abbrev pub is_complete : Status → Bool
is_complete complete = true
is_complete _ = false

-- `wb-finance-{cabinet}-{year}`; `show` is `str` on a year.
abbrev pub job_name : (ℕ → String) → String → ℕ → String
job_name show cabinet year =
    str_append "wb-finance-" (str_append cabinet (str_append "-" (show year)))

abbrev pub new_job : Clock → String → String → ℕ → String → Job
new_job clock job_id cabinet year token_type = record {
  job_id = job_id;
  cabinet = cabinet;
  year = year;
  token_type = token_type;
  status = queued;
  phase = discover;
  discovery_offset = 0;
  fragments = [];
  report_index = 0;
  current_rrd_id = 0;
  provider_calls = 0;
  completed_report_ids = [];
  last_retry_after = 0;
  last_error = none;
  finalize = none;
  last_telemetry = none;
  created_at = clock.utc;
  updated_at = clock.utc;
}

module _ {lib : Library} (s : Setup) where
  -- `show` is `str` on a year, `this_year` the current one, `cabinet_of` is `normalize_cabinet` (an
  -- unknown seller has none), `token_type` the type of the cabinet's token.
  abbrev pub enqueue_new : Clock → String → String → ℕ → String → World lib → Step lib
  enqueue_new clock job_id cabinet year token_type w =
      let j = new_job clock job_id cabinet year token_type in
      done (schedule clock job_id 0 (save clock j w)) (reply queued "created")

  abbrev pub enqueue_existing : Clock → String → Job → World lib → Step lib
  enqueue_existing clock job_id j w =
      let r : Reply = record {
        ok = true;
        status = some j.status;
        action = "existing";
        retry_after = 0;
        error = none;
      } in
      if is_complete j.status then done w r else done (schedule clock job_id 0 w) r

  abbrev pub enqueue_at :
      Clock → String → String → ℕ → (String → String) → Option Job → World lib → Step lib
  enqueue_at clock job_id cabinet year token_type (some j) w = enqueue_existing clock job_id j w
  enqueue_at clock job_id cabinet year token_type none w =
      with_credentials s (s.credentials cabinet) w
        (enqueue_new clock job_id cabinet year (token_type cabinet) w)

  abbrev pub enqueue_for :
      (ℕ → String) → Clock → ℕ → (String → String) → Option String → World lib → Step lib
  enqueue_for show clock year token_type none w = raised w "Unknown WB seller/cabinet"
  enqueue_for show clock year token_type (some cabinet) w =
      let job_id = job_name show cabinet year in
      enqueue_at clock job_id cabinet year token_type (load job_id w) w

  unfoldable pub enqueue :
      (ℕ → String)
      → ℕ
      → (String → Option String)
      → (String → String)
      → Clock
      → ℕ
      → String
      → World lib
      → Step lib
  enqueue show this_year cabinet_of token_type clock year seller w =
      if ltb year 2024 || ltb this_year year
      then raised w "year must be between 2024 and the current year"
      else enqueue_for show clock year token_type (cabinet_of seller) w

-- `f"Unknown archive job phase: {phase}"`
abbrev pub unknown_phase : Phase → String
unknown_phase discover = "Unknown archive job phase: DISCOVER"
unknown_phase download = "Unknown archive job phase: DOWNLOAD"
unknown_phase (other p) = str_append "Unknown archive job phase: " p

abbrev pub started : Job → Job
started j = record j { status = running; last_retry_after = 0; last_error = none }

abbrev busy : Reply
busy = record { ok = true; status = none; action = "worker_busy"; retry_after = 2; error = none }

abbrev pub text_lt : String → String → Bool
text_lt a b = elim (compare a b) [ Ordering.lt ↦ true | _ ↦ false ]

module _ {lib : Library} (s : Setup) (ids : Ids) where
  abbrev pub fail_phase : Phase → Clock → Job → World lib → Step lib
  fail_phase p clock j w =
      close clock (record j { status = failed; last_error = some (unknown_phase p) })
        (record {
          ok = false;
          status = some failed;
          action = "";
          retry_after = 0;
          error = some (unknown_phase p);
        })
        w

  -- The step of a running job.
  abbrev pub in_phase : Phase → Clock → Job → World lib → Step lib
  in_phase discover clock j w = discover_step s clock j w
  in_phase download clock j w = download_step s clock j w
  in_phase (other p) clock j w = fail_phase (other p) clock j w

  abbrev pub run_job : Option Finalize → Clock → Job → World lib → Step lib
  run_job (some f) clock j w = finalize_step s ids clock j f w
  run_job none clock j w = in_phase j.phase clock j w

  abbrev pub with_job : Clock → String → Option Job → World lib → Step lib
  with_job clock job_id none w = done (unschedule job_id w) (record {
    ok = false;
    status = none;
    action = "";
    retry_after = 0;
    error = some "archive_job_not_found";
  })
  with_job clock job_id (some j) w =
      if is_complete j.status
      then done (unschedule job_id w) (reply complete "noop")
      else run_job j.finalize clock (started j) w

  -- Under the lock of the job; `locked` says that another worker holds it.
  unfoldable pub step_job : Bool → Clock → String → World lib → Step lib
  step_job locked clock job_id w =
      if locked then done w busy else with_job clock job_id (load job_id w) w

  abbrev pub idle_or : Bool → Clock → Option String × ℕ → World lib → Step lib
  idle_or locked clock (some job_id, wait) w = step_job locked clock job_id w
  idle_or locked clock (none, wait) w = done w (record {
    ok = true;
    status = none;
    action = "idle";
    retry_after = ceil_seconds wait;
    error = none;
  })

  -- With no job named, the job that is due first.
  unfoldable pub worker_step : Bool → Clock → String → World lib → Step lib
  unfolding step_job next_due load
  worker_step locked clock job_id w =
      if job_id == ""
      then idle_or locked clock (next_due text_lt clock w) w
      else step_job locked clock job_id w
