-- ===== src/Finance/Registry.antt =====
-- app/core/wb_finance_archive.py: `merge_registry` and `registry_complete_ids`.
pub mod Commit
use Prim.Native.Nat.{Ordering}
use Prim.Native.String.{compare}
use mcp_yandex_cloud_infra.Prelude.{
  ℕ, String, Bool, true, false, ◌&&◌, ◌||◌, not, Option, none, some, List, [], ◌∷◌, ◌++◌, map, leb,
  nat_eq, string_eq, pair_eq, ◌==◌, if◌then◌else◌,
}
use mcp_yandex_cloud_infra.Prelude.Sort.{sort}
use mcp_yandex_cloud_infra.Dict.{Dict, lookup, insert}
use mcp_yandex_cloud_infra.Json.{Json, str}
use mcp_yandex_cloud_infra.Finance.Csv.{
  Row, Library, cell, text_of, stringify, or_nothing, parse_csv_bytes, encode_csv, int_or_zero,
}

abbrev pub dataset : String
dataset = "wb_weekly_finance_main"

abbrev pub registry_fields : List String
registry_fields =
    "marketplace" ∷ "cabinet" ∷ "dataset" ∷ "report_type" ∷ "report_id" ∷ "date_from" ∷ "date_to"
    ∷ "logical_week_from" ∷ "logical_week_to" ∷ "create_date" ∷ "year" ∷ "annual_file"
    ∷ "storage_object_key" ∷ "rows" ∷ "bytes" ∷ "sha256" ∷ "status" ∷ "ingested_at_utc" ∷ []

-- The key (cabinet, dataset, report_id).
abbrev pub RegistryKey : Type 0
RegistryKey = String × (String × String)

pub record SortKey : Type 0 where
  pub marketplace : String
  pub cabinet : String
  pub week : String
  pub report_id : ℕ

abbrev text_lt : String → String → Bool
text_lt s t = elim (compare s t) [ Ordering.lt ↦ true | _ ↦ false ]

unfoldable pub key_le : SortKey × Row → SortKey × Row → Bool
key_le (a, _) (b, _) =
    text_lt a.marketplace b.marketplace
    || (a.marketplace == b.marketplace
        && (text_lt a.cabinet b.cabinet
            || (a.cabinet == b.cabinet
                && (text_lt a.week b.week || (a.week == b.week && leb a.report_id b.report_id)))))

-- `str == value` for a cell.
abbrev pub is_text : String → Json → Bool
is_text t (str s) = s == t
is_text t _ = false

abbrev add_id : Option ℕ → List ℕ → List ℕ
add_id none ids = ids
add_id (some n) ids = n ∷ ids

-- `all(key)`
abbrev pub is_whole : RegistryKey → Bool
is_whole (c, (d, r)) = not (c == "") && (not (d == "") && not (r == ""))

abbrev pub cons_some :
    Option (SortKey × Row) → Option (List (SortKey × Row)) → Option (List (SortKey × Row))
cons_some (some k) (some ks) = some (k ∷ ks)
cons_some _ _ = none

module _ (lib : Library) where
  unfoldable pub registry_key : Row → RegistryKey
  unfolding stringify
  registry_key row =
      (text_of lib "cabinet" row, (text_of lib "dataset" row, text_of lib "report_id" row))

  -- Both loops: a whole key takes the last row that has it.
  unfoldable pub put_rows : Dict RegistryKey Row → List Row → Dict RegistryKey Row
  unfolding registry_key insert
  put_rows d [] = d
  put_rows d (row ∷ rows) =
      let key = registry_key row in put_rows (if is_whole key then insert key row d else d) rows

  abbrev pub key_from : Row → Option ℕ → Option (SortKey × Row)
  key_from row none = none
  key_from row (some report) = some (
    record {
      marketplace = text_of lib "marketplace" row;
      cabinet = text_of lib "cabinet" row;
      week = text_of lib "logical_week_from" row;
      report_id = report;
    },
    row,
  )

  unfoldable pub with_keys : List Row → Option (List (SortKey × Row))
  unfolding stringify
  with_keys [] = some []
  with_keys (row ∷ rows) =
      cons_some (key_from row (int_or_zero lib (text_of lib "report_id" row))) (with_keys rows)

  abbrev pub written : Option (List (SortKey × Row)) → Option lib.Bytes
  written none = none
  written (some keyed) = some (encode_csv lib registry_fields (map (λ e. e.1) (sort key_le keyed)))

  -- `none` is the ValueError of a report id that is no number.
  unfoldable pub merge_registry : Option lib.Bytes → List Row → Option lib.Bytes
  merge_registry existing records =
      let old = put_rows [] (parse_csv_bytes lib (or_nothing lib existing)).1 in
      written (with_keys (map (λ e. e.1) (put_rows old records)))

  -- `int(row.get("report_id") or 0)` of a cell of the file; a ValueError passes the row over.
  abbrev pub row_id : Row → Option ℕ
  row_id row = int_or_zero lib (text_of lib "report_id" row)

  unfoldable pub is_complete : String → Row → Bool
  unfolding lookup
  is_complete cabinet row =
      is_text cabinet (cell "cabinet" row)
      && (is_text dataset (cell "dataset" row) && is_text "COMPLETE" (cell "status" row))

  unfoldable pub complete_ids : String → List Row → List ℕ
  unfolding is_complete stringify
  complete_ids cabinet [] = []
  complete_ids cabinet (row ∷ rows) =
      let rest = complete_ids cabinet rows in
      if is_complete cabinet row then add_id (row_id row) rest else rest

  -- The set, as a list that may name an id twice.
  unfoldable pub registry_complete_ids : Option lib.Bytes → String → List ℕ
  registry_complete_ids existing cabinet =
      complete_ids cabinet (parse_csv_bytes lib (or_nothing lib existing)).1
