-- ===== src/Queue/Finalize.antt =====
-- app/core/archive_queue.py: `_finalize_step`, one stage for each call.
use mcp_yandex_cloud_infra.Prelude.{
  ℕ, ◌+◌, String, ◌&&◌, Option, none, some, List, [], ◌∷◌, length, get_elem?, leb, nat_eq,
  string_eq, pair_eq, ◌==◌, if◌then◌else◌,
}
use mcp_yandex_cloud_infra.Prelude.Sort.{sort}
use mcp_yandex_cloud_infra.Dict.{lookup, insert}
use mcp_yandex_cloud_infra.Json.{num, str}
use mcp_yandex_cloud_infra.Finance.Csv.{Library, Row, or_nothing, parse_csv_bytes}
use mcp_yandex_cloud_infra.Finance.Annual.{Stats, merge_annual_csv}
use mcp_yandex_cloud_infra.Finance.Registry.{dataset, merge_registry}
use mcp_yandex_cloud_infra.Finance.Fragments.{ReportFragment, main_report_type}
use mcp_yandex_cloud_infra.Queue.Telemetry.{ensure_finalize_telemetry, record_finalize_event}
use mcp_yandex_cloud_infra.Queue.State.{
  Job, Finalize, FinalizePhase, prepare, upload_annual, commit, unknown, World, Step, raised, reply,
  Clock, queued, complete, subject, requeue, close,
}
use mcp_yandex_cloud_infra.Queue.Discover.{Setup, distinct}

-- The object ids that the store gives to an uploaded candidate and to an annual file.
pub record Ids : Type 0 where
  pub candidate : String → String
  pub annual : String → ℕ → String
  pub annual_name : String → ℕ → String

-- The registry record of a committed report.
abbrev pub commit_record : Ids → Clock → Job → Finalize → ReportFragment → Row
commit_record ids clock j f fragment =
    ("marketplace", str "wb")
    ∷ ("cabinet", str j.cabinet)
    ∷ ("dataset", str dataset)
    ∷ ("report_type", num main_report_type)
    ∷ ("report_id", num f.report_id)
    ∷ ("date_from", str fragment.date_from)
    ∷ ("date_to", str fragment.date_to)
    ∷ ("logical_week_from", str fragment.logical_week_from)
    ∷ ("logical_week_to", str fragment.logical_week_to)
    ∷ ("create_date", str fragment.create_date)
    ∷ ("year", num j.year)
    ∷ ("annual_file", str (ids.annual_name j.cabinet j.year))
    ∷ ("storage_object_key", str f.annual_object_id)
    ∷ ("rows", num f.report_rows)
    ∷ ("bytes", num f.annual_bytes)
    ∷ ("sha256", str f.annual_sha256)
    ∷ ("status", str "COMPLETE")
    ∷ ("ingested_at_utc", str (if f.ingested_at == "" then clock.utc else f.ingested_at))
    ∷ []

module _ {lib : Library} (s : Setup) (ids : Ids) where
  -- The candidate is stored with its size and hash, and uploaded in the next step.
  abbrev pub prepared :
      Clock → Job → Finalize → List Row → Option (lib.Bytes × Stats) → World lib → Step lib
  prepared clock j f rows none w = raised w "a row number is no number"
  prepared clock j f rows (some (file, stats)) w =
      let f' = record f {
        phase = upload_annual;
        report_rows = length rows;
        annual_rows = stats.total_rows;
        annual_bytes = lib.size file;
        annual_sha256 = lib.sha256 file;
        ingested_at = if f.ingested_at == "" then clock.utc else f.ingested_at;
      } in
      let id = ids.candidate j.job_id in
      let t = ensure_finalize_telemetry s.correlation_id (subject j f') (some id) f.telemetry in
      let t' =
        record_finalize_event s.correlation_id clock.utc (subject j f') "PREPARE_TO_UPLOAD_ANNUAL"
          (("candidate_object_id", str id)
            ∷ ("candidate_bytes", num f'.annual_bytes)
            ∷ ("candidate_sha256", str f'.annual_sha256)
            ∷ ("resumable_offset", num 0)
            ∷ ("transition", str "PREPARE->UPLOAD_ANNUAL")
            ∷ [])
          t in
      requeue clock (record j { finalize = some (record f' { telemetry = t' }); status = queued }) 0
        (reply queued "report_finalize_prepared")
        (record w { candidates = insert j.job_id file w.candidates })

  unfoldable pub prepare_stage : Clock → Job → Finalize → World lib → Step lib
  unfolding ensure_finalize_telemetry record_finalize_event
  prepare_stage clock j f w =
      let rows =
        (parse_csv_bytes lib (or_nothing lib (lookup (j.job_id, f.report_id) w.staging))).1 in
      prepared clock j f rows (merge_annual_csv lib (lookup (j.cabinet, j.year) w.annual) rows) w

  abbrev pub uploaded : Clock → Job → Finalize → Option lib.Bytes → World lib → Step lib
  uploaded clock j f none w = raised w "Durable annual finalize candidate is missing"
  uploaded clock j f (some file) w =
      if lib.size file == f.annual_bytes && lib.sha256 file == f.annual_sha256
      then requeue clock
          (record j {
            finalize =
                some (record f { annual_object_id = ids.annual j.cabinet j.year; phase = commit });
            status = queued;
          })
          0 (reply queued "report_annual_uploaded")
          (record w { annual = insert (j.cabinet, j.year) file w.annual })
      else raised w "Durable annual finalize candidate failed size/SHA256 verification"

  unfoldable pub upload_stage : Clock → Job → Finalize → World lib → Step lib
  upload_stage clock j f w = uploaded clock j f (lookup j.job_id w.candidates) w

  -- The registry has the report; the job goes on to the next one.
  abbrev pub committed : Clock → Job → Finalize → Option lib.Bytes → World lib → Step lib
  committed clock j f none w = raised w "a report id of the registry is no number"
  committed clock j f (some registry) w =
      let t =
        record_finalize_event s.correlation_id clock.utc (subject j f) "COMMIT_STARTED"
          (("transition", str "UPLOAD_ANNUAL->COMMIT") ∷ []) f.telemetry in
      let t' =
        record_finalize_event s.correlation_id clock.utc (subject j f) "COMMIT_COMPLETE"
          (("canonical_file_id", str f.annual_object_id)
            ∷ ("candidate_bytes", num f.annual_bytes)
            ∷ ("candidate_sha256", str f.annual_sha256)
            ∷ ("transition", str "COMMIT->NEXT")
            ∷ [])
          t in
      let snapshot = ensure_finalize_telemetry s.correlation_id (subject j f) none t' in
      let j' = record j {
        completed_report_ids = sort leb (distinct (f.report_id ∷ j.completed_report_ids));
        report_index = j.report_index + 1;
        current_rrd_id = 0;
        last_telemetry = some snapshot;
        finalize = none;
      } in
      let w' = record w { registry = some registry } in
      if leb (length j.fragments) j'.report_index
      then close clock (record j' { status = complete }) (reply complete "report_finalized") w'
      else requeue clock (record j' { status = queued }) 0 (reply queued "report_finalized") w'

  unfoldable pub commit_stage : Clock → Job → Finalize → ReportFragment → World lib → Step lib
  unfolding ensure_finalize_telemetry record_finalize_event distinct
  commit_stage clock j f fragment w =
      if f.annual_object_id == ""
      then raised w "Finalize COMMIT has no annual_object_id"
      else committed clock j f
          (merge_registry lib w.registry (commit_record ids clock j f fragment ∷ [])) w

  abbrev pub by_phase :
      FinalizePhase → Clock → Job → Finalize → ReportFragment → World lib → Step lib
  by_phase prepare clock j f fragment w = prepare_stage clock j f w
  by_phase upload_annual clock j f fragment w = upload_stage clock j f w
  by_phase commit clock j f fragment w = commit_stage clock j f fragment w
  by_phase (unknown p) clock j f fragment w = raised w "Unknown finalize phase"

  abbrev pub for_fragment : Clock → Job → Finalize → Option ReportFragment → World lib → Step lib
  for_fragment clock j f none w = raised w "Finalize state points past the fragment list"
  for_fragment clock j f (some fragment) w =
      if f.report_id == fragment.report_id
      then by_phase f.phase clock j f fragment w
      else raised w "Finalize report mismatch"

  unfoldable pub finalize_step : Clock → Job → Finalize → World lib → Step lib
  unfolding prepare_stage upload_stage commit_stage
  finalize_step clock j f w = for_fragment clock j f (get_elem? j.fragments j.report_index) w
