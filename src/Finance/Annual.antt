-- ===== src/Finance/Annual.antt =====
-- app/core/wb_finance_archive.py: `merge_annual_csv`.
pub mod Dedup
use Prim.Native.Nat.{Ordering}
use Prim.Native.String.{compare}
use mcp_yandex_cloud_infra.Prelude.{
  ℕ, ◌+◌, ◌-◌, String, Bool, true, false, ◌&&◌, ◌||◌, not, Option, none, some, List, [], ◌∷◌, ◌++◌,
  map, ltb, leb, length, nat_eq, string_eq, pair_eq, ◌==◌, if◌then◌else◌,
}
use mcp_yandex_cloud_infra.Prelude.Sort.{sort}
use mcp_yandex_cloud_infra.Dict.{Dict, lookup, insert}
use mcp_yandex_cloud_infra.Json.{Json, str, obj, Fields, end, field}
use mcp_yandex_cloud_infra.Errors.{is_in}
use mcp_yandex_cloud_infra.Finance.Csv.{
  Row, Library, text_of, stringify, or_nothing, parse_csv_bytes, encode_csv, int_or_zero,
}

-- The fields of the rows that are not among the names yet, in order.
unfoldable pub add_names : List String → Row → List String
add_names names [] = names
add_names names ((k, v) ∷ row) = add_names (if is_in k names then names else names ++ k ∷ []) row

unfoldable pub all_names : List String → List Row → List String
unfolding add_names
all_names names [] = names
all_names names (row ∷ rows) = all_names (add_names names row) rows

-- `by_key`, `anonymous` and `anonymous_markers`.
pub record Merge : Type 0 where
  pub by_key : Dict (String × String) Row
  pub anonymous : List Row
  pub markers : List String

abbrev pub no_rows : Merge
no_rows = record { by_key = []; anonymous = []; markers = [] }

abbrev pub is_some {ℓ} : {A : Type ℓ} → Option A → Bool
is_some none = false
is_some (some a) = true

pub record SortKey : Type 0 where
  pub date_from : String
  pub date_to : String
  pub report_id : ℕ
  pub rrd_id : ℕ

abbrev text_lt : String → String → Bool
text_lt s t = elim (compare s t) [ Ordering.lt ↦ true | _ ↦ false ]

-- The order of the key tuples.
unfoldable pub key_le : SortKey × Row → SortKey × Row → Bool
key_le (a, _) (b, _) =
    text_lt a.date_from b.date_from
    || (a.date_from == b.date_from
        && (text_lt a.date_to b.date_to
            || (a.date_to == b.date_to
                && (ltb a.report_id b.report_id
                    || (a.report_id == b.report_id && leb a.rrd_id b.rrd_id)))))

pub record Stats : Type 0 where
  pub added_rows : ℕ
  pub total_rows : ℕ
  pub columns : ℕ

module _ (lib : Library) where
  unfoldable pub row_key : Row → String × String
  unfolding stringify
  row_key row = (text_of lib "reportId" row, text_of lib "rrdId" row)

  unfoldable pub is_keyed : Row → Bool
  unfolding row_key
  is_keyed row = not ((row_key row).0 == "") && not ((row_key row).1 == "")

  marker_fields : List String → Row → Fields
  unfolding stringify
  marker_fields [] row = end
  marker_fields (name ∷ names) row =
      field name (str (text_of lib name row)) (marker_fields names row)

  -- The JSON text of the row's cells.
  unfoldable pub marker : List String → Row → String
  unfolding marker_fields
  marker names row = lib.dumps (obj (marker_fields names row))

  -- `add_row(row, replace=False)`; what it returns is not used.
  unfoldable pub add_row : List String → Merge → Row → Merge
  unfolding is_keyed marker lookup insert
  add_row names m row =
      let key = row_key row in
      let mark = marker names row in
      if is_keyed row
      then if is_some (lookup key m.by_key)
        then m
        else record m { by_key = insert key row m.by_key }
      else if is_in mark m.markers
      then m
      else record m { anonymous = m.anonymous ++ row ∷ []; markers = mark ∷ m.markers }

  unfoldable pub add_rows : List String → Merge → List Row → Merge
  unfolding add_row
  add_rows names m [] = m
  add_rows names m (row ∷ rows) = add_rows names (add_row names m row) rows

  -- `list(by_key.values()) + anonymous`
  abbrev pub rows_of : Merge → List Row
  rows_of m = map (λ e. e.1) m.by_key ++ m.anonymous

  abbrev key_from : Row → Option ℕ → Option ℕ → Option (SortKey × Row)
  key_from row none rrd = none
  key_from row (some report) none = none
  key_from row (some report) (some rrd) = some (
    record {
      date_from = text_of lib "dateFrom" row;
      date_to = text_of lib "dateTo" row;
      report_id = report;
      rrd_id = rrd;
    },
    row,
  )

  abbrev pub sort_key : Row → Option (SortKey × Row)
  sort_key row =
      key_from row (int_or_zero lib (text_of lib "reportId" row))
        (int_or_zero lib (text_of lib "rrdId" row))

  abbrev cons_some :
      Option (SortKey × Row) → Option (List (SortKey × Row)) → Option (List (SortKey × Row))
  cons_some (some k) (some ks) = some (k ∷ ks)
  cons_some _ _ = none

  unfoldable pub with_keys : List Row → Option (List (SortKey × Row))
  unfolding stringify
  with_keys [] = some []
  with_keys (row ∷ rows) = cons_some (sort_key row) (with_keys rows)

  abbrev finished : List String → ℕ → Option (List (SortKey × Row)) → Option (lib.Bytes × Stats)
  finished names before none = none
  finished names before (some keyed) =
      let rows = map (λ e. e.1) (sort key_le keyed) in
      some (
        encode_csv lib names rows,
        record {
          added_rows = length rows - before;
          total_rows = length rows;
          columns = length names;
        },
      )

  -- `none` is the ValueError of a report or row number that is no number.
  unfoldable pub merge_annual_csv : Option lib.Bytes → List Row → Option (lib.Bytes × Stats)
  merge_annual_csv existing new_rows =
      let (old_names, old_rows) = parse_csv_bytes lib (or_nothing lib existing) in
      let names = all_names old_names new_rows in
      let old = add_rows names no_rows old_rows in
      let merged = add_rows names old new_rows in
      let before = length old.by_key + length old.anonymous in
      if length names == 0
      then some (
        or_nothing lib existing,
        record { added_rows = 0; total_rows = length old_rows; columns = 0 },
      )
      else finished names before (with_keys (rows_of merged))
