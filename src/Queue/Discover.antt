-- ===== src/Queue/Discover.antt =====
-- app/core/archive_queue.py: what a step calls outside the queue, and `_discover_step`.
use Prim.Native.Nat.{Ordering}
use Prim.Native.String.{compare}
use mcp_yandex_cloud_infra.Prelude.{
  ℕ, ◌+◌, String, Bool, true, false, ◌&&◌, ◌||◌, not, Option, none, some, List, [], ◌∷◌, ◌++◌, map,
  keep_if, length, leb, nat_eq, string_eq, ◌==◌, if◌then◌else◌,
}
use mcp_yandex_cloud_infra.Prelude.Sort.{sort}
use mcp_yandex_cloud_infra.Dict.{Dict, insert}
use mcp_yandex_cloud_infra.Json.{Json, obj, Fields, end, field, truthy, as_list}
use mcp_yandex_cloud_infra.Finance.Csv.{Library, Row}
use mcp_yandex_cloud_infra.Finance.Registry.{registry_complete_ids}
use mcp_yandex_cloud_infra.Finance.Fragments.{
  ReportFragment, Dates, fragment_le, normalize_main_fragments,
}
use mcp_yandex_cloud_infra.Queue.State.{
  Job, Request, list_reports, Payload, World, Step, raised, reply, Clock, queued, complete,
  download, requeue, close,
}
use mcp_yandex_cloud_infra.Queue.Waiting.{Handled, go_on, ended, wait_or_fail}

-- What the steps call outside this module. `provider n r` is the payload for request `r` after `n`
-- others; `credentials` is the error of `_resolve_creds`, if it raises; the two flags say whether
-- the catalog has the contracts. `year_first` and `year_last` are the ISO dates of 1 January and 31
-- December, `cut` is `[:1000]`, `correlation_id` is the hash of the telemetry.
pub record Setup : Type 0 where
  pub dates : Dates
  pub provider : ℕ → Request → Payload
  pub credentials : String → Option String
  pub has_listing : Bool
  pub has_detail : Bool
  pub year_first : ℕ → String
  pub year_last : ℕ → String
  pub cut : String → String
  pub correlation_id : String → ℕ → String

abbrev pub max_discovery_page : ℕ
max_discovery_page = 1000

abbrev text_le : String → String → Bool
text_le s t = elim (compare s t) [ Ordering.gt ↦ false | _ ↦ true ]

unfoldable pub overlaps_year : Setup → ℕ → ReportFragment → Bool
overlaps_year s year f =
    text_le (s.year_first year) f.logical_week_to && text_le f.logical_week_from (s.year_last year)

-- The dict of fragments by number: those of the job, then those of the page.
unfoldable pub by_id : List ReportFragment → Dict ℕ ReportFragment → Dict ℕ ReportFragment
unfolding insert
by_id [] d = d
by_id (f ∷ fs) d = by_id fs (insert f.report_id f d)

abbrev pub is_member : ℕ → List ℕ → Bool
is_member n [] = false
is_member n (m ∷ ms) = m == n || is_member n ms

-- `set(...)`, as a list without repetitions.
unfoldable pub distinct : List ℕ → List ℕ
distinct [] = []
distinct (n ∷ ns) = let rest = distinct ns in if is_member n rest then rest else n ∷ rest

unfoldable pub accumulate :
    Setup → ℕ → List ReportFragment → List ReportFragment → List ReportFragment
unfolding by_id overlaps_year sort fragment_le
accumulate s year old found =
    let numbered = keep_if (λ f. not (f.report_id == 0)) old in
    let fresh = keep_if (overlaps_year s year) found in
    sort fragment_le (map (λ e. e.1) (by_id fresh (by_id numbered [])))

-- A dict of the page as a row; `none` is the AttributeError of another value.
row_of : Fields → Row
row_of end = []
row_of (field k v fs) = (k, v) ∷ row_of fs

abbrev cons_row : Json → Option (List Row) → Option (List Row)
cons_row (obj fs) (some rows) = some (row_of fs ∷ rows)
cons_row _ _ = none

unfoldable pub rows_of : List Json → Option (List Row)
unfolding row_of
rows_of [] = some []
rows_of (x ∷ xs) = cons_row x (rows_of xs)

-- `result.get("data") or []`, if it is a list.
abbrev pub page_items : Json → Option (List Json)
page_items body = if truthy body then as_list body else some []

module _ {lib : Library} (s : Setup) where
  -- The listing is complete: what the registry has is dropped, and the downloads begin.
  unfoldable pub start_downloads : Clock → Job → World lib → Step lib
  unfolding distinct
  start_downloads clock j w =
      let finished = registry_complete_ids lib w.registry j.cabinet in
      let pending = keep_if (λ f. not (is_member f.report_id finished)) j.fragments in
      let j' = record j {
        fragments = pending;
        completed_report_ids = sort leb (distinct finished);
        phase = download;
        report_index = 0;
        current_rrd_id = 0;
      } in
      if length pending == 0
      then close clock (record j' { status = complete }) (reply complete "nothing_missing") w
      else requeue clock (record j' { status = queued }) 0 (reply queued "discovery_complete") w

  -- `count` is the length of the page.
  unfoldable pub discovered : Clock → ℕ → List ReportFragment → Job → World lib → Step lib
  unfolding start_downloads
  discovered clock count found j w =
      let j' = record j { fragments = accumulate s j.year j.fragments found } in
      if leb max_discovery_page count
      then requeue clock
          (record j' { discovery_offset = j.discovery_offset + count; status = queued }) 0
          (reply queued "discovery_page_saved") w
      else start_downloads clock j' w

  abbrev pub with_fragments : Clock → ℕ → Option (List ReportFragment) → Job → World lib → Step lib
  with_fragments clock count none j w = raised w "invalid date in the listing"
  with_fragments clock count (some found) j w = discovered clock count found j w

  abbrev pub with_rows : Clock → ℕ → Option (List Row) → Job → World lib → Step lib
  with_rows clock count none j w = raised w "a row of the listing is no dict"
  with_rows clock count (some rows) j w =
      with_fragments clock count (normalize_main_fragments s.dates rows) j w

  abbrev pub with_page : Clock → Option (List Json) → Job → World lib → Step lib
  with_page clock none j w = raised w "WB report discovery returned non-list data"
  with_page clock (some items) j w = with_rows clock (length items) (rows_of items) j w

  abbrev pub listed : Clock → Json → Handled lib → World lib → Step lib
  listed clock body (ended step) w = step
  listed clock body (go_on j) w = with_page clock (page_items body) j w

  -- The request, and the payload that answers it.
  abbrev pub ask : Request → World lib → Payload × World lib
  ask r w = (s.provider (length w.requests) r, record w { requests = w.requests ++ r ∷ [] })

  abbrev pub with_credentials : Option String → World lib → Step lib → Step lib
  with_credentials none w step = step
  with_credentials (some error) w step = raised w error

  unfoldable pub discover_step : Clock → Job → World lib → Step lib
  unfolding discovered rows_of
  discover_step clock j w =
      let (payload, w') = ask (list_reports j.cabinet j.year j.discovery_offset) w in
      with_credentials (s.credentials j.cabinet) w (
        if s.has_listing
        then listed clock payload.body (wait_or_fail s.cut clock payload "discover_failed" j w') w'
        else raised w "wb_finance_sales_reports_list contract is missing")
