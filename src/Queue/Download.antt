-- ===== src/Queue/Download.antt =====
-- app/core/archive_queue.py: `_download_step`.
use mcp_yandex_cloud_infra.Prelude.{
  ℕ, String, Option, none, some, List, [], ◌∷◌, get_elem?, leb, nat_eq, string_eq, pair_eq, ◌==◌,
  if◌then◌else◌,
}
use mcp_yandex_cloud_infra.Dict.{lookup, insert}
use mcp_yandex_cloud_infra.Json.{Json, str, truthy}
use mcp_yandex_cloud_infra.Paginate.Page.{to_int}
use mcp_yandex_cloud_infra.Finance.Csv.{Library, Row, cell}
use mcp_yandex_cloud_infra.Finance.Annual.{Stats, merge_annual_csv}
use mcp_yandex_cloud_infra.Finance.Fragments.{ReportFragment, main_report_type}
use mcp_yandex_cloud_infra.Queue.Telemetry.{
  no_telemetry, ensure_finalize_telemetry, record_finalize_event,
}
use mcp_yandex_cloud_infra.Queue.State.{
  no_upload, Job, Finalize, prepare, report_rows, Payload, World, Step, raised, reply, Clock,
  queued, complete, subject, requeue, close,
}
use mcp_yandex_cloud_infra.Queue.Waiting.{Handled, go_on, ended, wait_or_fail}
use mcp_yandex_cloud_infra.Queue.Discover.{Setup, rows_of, page_items, with_credentials, ask}

-- `int(row.get(name) or default)`; `none` is the exception of a value that is no number.
abbrev pub int_or : Setup → ℕ → Json → Option ℕ
int_or s default v = if truthy v then to_int s.dates.int v else some default

-- The error of the first row that is of another report or type, if there is one.
abbrev pub row_error : Setup → ℕ → Row → Option String
row_error s report_id row =
    error_of (int_or s report_id (cell "reportId" row)) (int_or s 0 (cell "reportType" row))
  where
    error_of : Option ℕ → Option ℕ → Option String
    error_of none kind = some "reportId is no number"
    error_of (some id) none =
        if id == report_id
        then some "reportType is no number"
        else some "returned a foreign reportId"
    error_of (some id) (some kind) =
        if id == report_id
        then if kind == main_report_type then none else some "is not reportType=1"
        else some "returned a foreign reportId"

abbrev first_some : Option String → Option String → Option String
first_some none e = e
first_some (some e) rest = some e

unfoldable pub rows_error : Setup → ℕ → List Row → Option String
unfolding to_int lookup
rows_error s report_id [] = none
rows_error s report_id (row ∷ rows) =
    first_some (row_error s report_id row) (rows_error s report_id rows)

-- `int(page[-1]["rrdId"])`; `none` is one of the exceptions that the code catches.
unfoldable pub last_rrd : Setup → List Row → Option ℕ
unfolding to_int lookup
last_rrd s [] = none
last_rrd s (row ∷ []) = to_int s.dates.int (cell "rrdId" row)
last_rrd s (row ∷ next ∷ rows) = last_rrd s (next ∷ rows)

-- The state of a report whose rows are all staged.
abbrev pub new_finalize : ℕ → Finalize
new_finalize report_id = record {
  report_id = report_id;
  phase = prepare;
  report_rows = 0;
  annual_rows = 0;
  annual_bytes = 0;
  annual_sha256 = "";
  ingested_at = "";
  annual_object_id = "";
  resumable_upload = no_upload;
  resumable_upload_verified = none;
  telemetry = no_telemetry;
}

module _ {lib : Library} (s : Setup) where
  unfoldable pub finish_report : Clock → ℕ → Job → World lib → Step lib
  unfolding ensure_finalize_telemetry record_finalize_event
  finish_report clock report_id j w =
      let f = new_finalize report_id in
      let t = ensure_finalize_telemetry s.correlation_id (subject j f) none f.telemetry in
      let t' =
        record_finalize_event s.correlation_id clock.utc (subject j f) "DOWNLOAD_TO_PREPARE"
          (("transition", str "DOWNLOAD->PREPARE") ∷ []) t in
      requeue clock (record j { finalize = some (record f { telemetry = t' }); status = queued }) 0
        (reply queued "report_download_complete") w

  -- The staged file with the page, and the position that it reaches.
  abbrev pub staged : Clock → ℕ → ℕ → Option (lib.Bytes × Stats) → Job → World lib → Step lib
  staged clock report_id rrd none j w = raised w "a row number is no number"
  staged clock report_id rrd (some (file, stats)) j w =
      requeue clock (record j { current_rrd_id = rrd; status = queued }) 0
        (reply queued "report_page_staged")
        (record w { staging = insert (j.job_id, report_id) file w.staging })

  abbrev pub at_position : Clock → ℕ → List Row → Option ℕ → Job → World lib → Step lib
  at_position clock report_id rows none j w = raised w "has no terminal rrdId"
  at_position clock report_id rows (some rrd) j w =
      if leb rrd j.current_rrd_id
      then raised w "rrdId did not advance"
      else staged clock report_id rrd
          (merge_annual_csv lib (lookup (j.job_id, report_id) w.staging) rows) j w

  abbrev pub if_clean : Option String → World lib → Step lib → Step lib
  if_clean none w step = step
  if_clean (some error) w step = raised w error

  abbrev pub with_rows : Clock → ℕ → Option (List Row) → Job → World lib → Step lib
  with_rows clock report_id none j w = raised w "a row of the report is no dict"
  with_rows clock report_id (some rows) j w =
      if_clean (rows_error s report_id rows) w
        (at_position clock report_id rows (last_rrd s rows) j w)

  abbrev pub with_page : Clock → ℕ → Option (List Json) → Job → World lib → Step lib
  with_page clock report_id none j w = raised w "detail returned non-list data"
  with_page clock report_id (some []) j w = finish_report clock report_id j w
  with_page clock report_id (some (x ∷ xs)) j w = with_rows clock report_id (rows_of (x ∷ xs)) j w

  abbrev pub answered : Clock → ℕ → Payload → Handled lib → World lib → Step lib
  answered clock report_id p (ended step) w = step
  answered clock report_id p (go_on j) w =
      if p.status == 204
      then finish_report clock report_id j w
      else with_page clock report_id (page_items p.body) j w

  -- A job whose reports are all done is complete; else the next page of the report is asked for.
  abbrev pub at_fragment : Clock → Option ReportFragment → Job → World lib → Step lib
  at_fragment clock none j w =
      close clock (record j { status = complete }) (reply complete "complete") w
  at_fragment clock (some f) j w =
      let (payload, w') = ask s (report_rows j.cabinet f.report_id j.current_rrd_id) w in
      with_credentials s (s.credentials j.cabinet) w (
        if s.has_detail
        then answered clock f.report_id payload
            (wait_or_fail s.cut clock payload "download_failed" j w') w'
        else raised w "wb_finance_sales_reports_detailed_by_id contract is missing")

  unfoldable pub download_step : Clock → Job → World lib → Step lib
  unfolding finish_report rows_error last_rrd
  download_step clock j w = at_fragment clock (get_elem? j.fragments j.report_index) j w
