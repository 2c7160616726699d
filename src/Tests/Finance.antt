-- ===== src/Tests/Finance.antt =====
-- The finance archive on small files.
use mcp_yandex_cloud_infra.Prelude.{
  ◌+◌, ◌≤◌, ◌≡◌, refl, inl, inr, String, Option, none, some, List, [], ◌∷◌, All, In, arith,
  string_eq, pair_eq, nat_eq,
}
use mcp_yandex_cloud_infra.Prelude.Sort.{sort, insert_sorted}
use mcp_yandex_cloud_infra.Dict.{lookup, insert}
use mcp_yandex_cloud_infra.Json.{num, str}
use mcp_yandex_cloud_infra.Finance.Csv.{Row, stringify, parse_csv_bytes}
use mcp_yandex_cloud_infra.Finance.Annual.{Merge, add_row, add_rows}
use mcp_yandex_cloud_infra.Finance.Annual.Dedup.{first_with, first_row_wins, added_again}
use mcp_yandex_cloud_infra.Finance.Registry.{
  dataset, registry_key, merge_registry, registry_complete_ids, with_keys, put_rows,
}
use mcp_yandex_cloud_infra.Finance.Registry.Commit.{rows_fit, merged_rows, committed_is_complete}
use mcp_yandex_cloud_infra.Finance.Fragments.{
  ReportFragment, weekday, week_of, normalize_main_fragments, read_rows,
}
use mcp_yandex_cloud_infra.Finance.Fragments.Weeks.{IsMain, week_of_day, fragments_are-IsMain}
use mcp_yandex_cloud_infra.Paginate.Page.{to_int}
use mcp_yandex_cloud_infra.Tests.Data.{files, files-CsvLaws, dates}

abbrev sale : String → Row
sale note = ("reportId", num 7) ∷ ("rrdId", num 1) ∷ ("note", str note) ∷ []

abbrev fresh : Merge
fresh = record { by_key = []; anonymous = []; markers = [] }

first_row_wins_example :
    lookup ("7", "1") (add_rows files [] fresh (sale "a" ∷ sale "b" ∷ [])).by_key ≡ some (sale "a")
unfolding lookup add_rows add_row insert first_with stringify
first_row_wins_example = first_row_wins files [] (sale "a" ∷ sale "b" ∷ []) fresh ("7", "1")

added_again_example :
    add_rows files [] (add_rows files [] fresh (sale "a" ∷ [])) (sale "a" ∷ sale "a" ∷ [])
    ≡ add_rows files [] fresh (sale "a" ∷ [])
added_again_example =
    added_again files [] fresh (sale "a" ∷ []) (sale "a" ∷ sale "a" ∷ [])
      (λ row i. elim i [ inl e ↦ inl e | inr (inl e) ↦ inl e | inr (inr n) ↦ absurd n ])

abbrev commit : Row
commit =
    ("marketplace", str "wb")
    ∷ ("cabinet", str "A")
    ∷ ("dataset", str dataset)
    ∷ ("report_id", num 7)
    ∷ ("status", str "COMPLETE")
    ∷ []

abbrev bytes_or : Option files.Bytes → files.Bytes
bytes_or none = files.nothing
bytes_or (some b) = b

committed_is_complete_example :
    In 7
      (registry_complete_ids files (some (bytes_or (merge_registry files none (commit ∷ [])))) "A")
unfolding merge_registry registry_key stringify lookup with_keys put_rows parse_csv_bytes rows_fit
    merged_rows sort
committed_is_complete_example =
    committed_is_complete files none commit (bytes_or (merge_registry files none (commit ∷ []))) "A"
      7 files-CsvLaws refl (inl refl) refl refl refl refl refl refl

week_of_day_example :
    (weekday (week_of 10).0 ≡ 0)
    × ((week_of 10).1 ≡ (week_of 10).0 + 6)
    × ((week_of 10).0 ≤ 10)
    × (10 ≤ (week_of 10).1)
    × ((week_of 14).0 ≡ (week_of 10).0)
unfolding week_of weekday
week_of_day_example = week_of_day 10 14 (omega arith) (omega arith) (omega arith)

abbrev listing : List Row
listing =
    (("reportType", num 1) ∷ ("reportId", num 7) ∷ ("dateFrom", str "x") ∷ ("dateTo", str "y") ∷ [])
    ∷ (("reportType", num 2) ∷ ("reportId", num 1) ∷ [])
    ∷ []

abbrev found : List ReportFragment
found =
    record {
      report_id = 7;
      date_from = "1";
      date_to = "1";
      create_date = "";
      report_type = 1;
      logical_week_from = "0";
      logical_week_to = "0";
    }
    ∷ []

fragments_are-IsMain_example : All IsMain found
unfolding normalize_main_fragments read_rows lookup to_int sort insert_sorted
fragments_are-IsMain_example = fragments_are-IsMain dates listing found refl
