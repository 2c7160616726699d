-- ===== src/Queue/Status.antt =====
-- app/core/archive_queue.py: `status`.
use mcp_yandex_cloud_infra.Prelude.{ℕ, String, Option, none, some, List, length, string_eq}
use mcp_yandex_cloud_infra.Finance.Csv.{Library}
use mcp_yandex_cloud_infra.Queue.State.{Job, Status, Phase, World, load, Finalize, FinalizePhase}
use mcp_yandex_cloud_infra.Queue.Telemetry.{Telemetry, public_finalize_telemetry}

-- What `status` shows of a job.
pub record Shown : Type 0 where
  pub status : Status
  pub phase : Phase
  pub reports_total : ℕ
  pub report_index : ℕ
  pub completed_report_ids : List ℕ
  pub provider_calls : ℕ
  pub current_rrd_id : ℕ
  pub finalize_phase : Option FinalizePhase
  pub finalize_report_id : ℕ
  pub finalize_telemetry : Option Telemetry
  pub last_retry_after : ℕ
  pub last_error : Option String

abbrev map_some : {A : Type 0} → {B : Type 0} → (A → B) → Option A → Option B
map_some f none = none
map_some f (some a) = some (f a)

abbrev finalize_id : Option Finalize → ℕ
finalize_id none = 0
finalize_id (some f) = f.report_id

abbrev pub shown_of : Job → Shown
shown_of j = record {
  status = j.status;
  phase = j.phase;
  reports_total = length j.fragments;
  report_index = j.report_index;
  completed_report_ids = j.completed_report_ids;
  provider_calls = j.provider_calls;
  current_rrd_id = j.current_rrd_id;
  finalize_phase = map_some (λ f. f.phase) j.finalize;
  finalize_report_id = finalize_id j.finalize;
  finalize_telemetry =
      public_finalize_telemetry (map_some (λ f. f.telemetry) j.finalize) j.last_telemetry;
  last_retry_after = j.last_retry_after;
  last_error = j.last_error;
}

unfoldable pub status_of : {lib : Library} → String → World lib → Option Shown
unfolding load public_finalize_telemetry
status_of job_id w = map_some shown_of (load job_id w)
