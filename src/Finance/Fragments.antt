-- ===== src/Finance/Fragments.antt =====
-- app/core/wb_finance_archive.py: `ReportFragment`, `logical_week` and `normalize_main_fragments`.
pub mod Weeks
use Prim.Native.Nat.{Ordering}
use Prim.Native.String.{compare}
use mcp_yandex_cloud_infra.Prelude.{
  ℕ, ◌+◌, ◌-◌, ◌%◌, String, Bool, true, false, ◌&&◌, ◌||◌, not, Option, none, some, List, [], ◌∷◌,
  leb, nat_eq, string_eq, ◌==◌, if◌then◌else◌,
}
use mcp_yandex_cloud_infra.Prelude.Sort.{sort}
use mcp_yandex_cloud_infra.Dict.{lookup}
use mcp_yandex_cloud_infra.Json.{Json, null, str, truthy}
use mcp_yandex_cloud_infra.Paginate.Page.{to_int}
use mcp_yandex_cloud_infra.Finance.Csv.{Row, cell}

pub record ReportFragment : Type 0 where
  pub report_id : ℕ
  pub date_from : String
  pub date_to : String
  pub create_date : String
  pub report_type : ℕ
  pub logical_week_from : String
  pub logical_week_to : String

abbrev pub main_report_type : ℕ
main_report_type = 1

-- datetime.date by its ordinal (1 January of year 1, a Monday, is 1), and `str`, `int` and `[:10]`.
-- `from_iso` is `none` where `fromisoformat` raises.
pub record Dates : Type 0 where
  pub from_iso : String → Option ℕ
  pub iso : ℕ → String
  pub prefix10 : String → String
  pub show : Json → String
  pub int : String → Option ℕ

-- `date.weekday()`: 0 on a Monday.
unfoldable pub weekday : ℕ → ℕ
weekday ordinal = (ordinal + 6) % 7

-- The Monday and the Sunday of the day's week.
unfoldable pub week_of : ℕ → ℕ × ℕ
unfolding weekday
week_of day = let start = day - weekday day in (start, start + 6)

abbrev text_lt : String → String → Bool
text_lt s t = elim (compare s t) [ Ordering.lt ↦ true | _ ↦ false ]

-- The order by (logical_week_from, date_from, report_id).
unfoldable pub fragment_le : ReportFragment → ReportFragment → Bool
fragment_le a b =
    text_lt a.logical_week_from b.logical_week_from
    || (a.logical_week_from == b.logical_week_from
        && (text_lt a.date_from b.date_from
            || (a.date_from == b.date_from && leb a.report_id b.report_id)))

-- What one row of a listing gives: nothing, a fragment, or a ValueError of its date.
pub data Read : Type 0 where
  skip : Read
  keep : ReportFragment → Read
  bad_date : Read

abbrev dated : ℕ → ℕ → String → String → String → Option (String × String) → Read
dated kind id first last created none = bad_date
dated kind id first last created (some (week_from, week_to)) = keep (record {
  report_id = id;
  date_from = first;
  date_to = last;
  create_date = created;
  report_type = kind;
  logical_week_from = week_from;
  logical_week_to = week_to;
})

abbrev main_only : ℕ → ℕ → String → String → String → Option (String × String) → Read
main_only kind id first last created week =
    if not (kind == main_report_type) || leb id 0
    then skip
    else if first == "" || last == ""
    then skip
    else dated kind id first last created week

abbrev pub add_read : Read → Option (List ReportFragment) → Option (List ReportFragment)
add_read skip rest = rest
add_read (keep f) none = none
add_read (keep f) (some fs) = some (f ∷ fs)
add_read bad_date rest = none

module _ (py : Dates) where
  open py use {from_iso, iso, prefix10, show, int}

  abbrev week_texts : Option ℕ → Option (String × String)
  week_texts none = none
  week_texts (some day) = let (first, last) = week_of day in some (iso first, iso last)

  unfoldable pub logical_week : String → Option (String × String)
  unfolding week_of
  logical_week period_date = week_texts (from_iso (prefix10 period_date))

  -- `int(value or 0)`
  abbrev pub int_or_zero : Json → Option ℕ
  int_or_zero v = if truthy v then to_int int v else some 0

  -- `str(value or "")[:10]`
  abbrev pub date_text : Json → String
  date_text v = prefix10 (if truthy v then show v else "")

  abbrev with_ids : Option ℕ → Option ℕ → Row → Read
  with_ids none id row = skip
  with_ids (some kind) none row = skip
  with_ids (some kind) (some id) row =
      let first = date_text (cell "dateFrom" row) in
      let last = date_text (cell "dateTo" row) in
      main_only kind id first last (date_text (cell "createDate" row)) (logical_week first)

  unfoldable pub read_row : Row → Read
  unfolding logical_week to_int lookup
  read_row row =
      with_ids (int_or_zero (cell "reportType" row)) (int_or_zero (cell "reportId" row)) row

  unfoldable pub read_rows : List Row → Option (List ReportFragment)
  unfolding read_row
  read_rows [] = some []
  read_rows (row ∷ rows) = add_read (read_row row) (read_rows rows)

  abbrev pub sorted : Option (List ReportFragment) → Option (List ReportFragment)
  sorted none = none
  sorted (some fs) = some (sort fragment_le fs)

  -- `none` is the ValueError of a date that is no ISO date.
  unfoldable pub normalize_main_fragments : List Row → Option (List ReportFragment)
  normalize_main_fragments rows = sorted (read_rows rows)
