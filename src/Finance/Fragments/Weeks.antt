-- ===== src/Finance/Fragments/Weeks.antt =====
-- The logical week and the filter of app/core/wb_finance_archive.py.
use mcp_yandex_cloud_infra.Prelude.{
  ℕ, ◌+◌, ◌≤◌, ◌<◌, String, ◌≡◌, ◌≢◌, refl, Option, none, some, List, [], ◌∷◌, arith, All,
  streq_iff, inl, inr, Bool-cases,
}
use mcp_yandex_cloud_infra.Prelude.Sort.{sort, insert_sorted}
use mcp_yandex_cloud_infra.Finance.Csv.{Row, cell}
use mcp_yandex_cloud_infra.Finance.Fragments.{
  ReportFragment, Dates, Read, skip, keep, bad_date, weekday, week_of, with_ids, read_row,
  read_rows, date_text, logical_week, int_or_zero, sorted, normalize_main_fragments, add_read,
  dated, main_only, fragment_le,
}

-- The week of a day starts on a Monday, ends six days later, and contains the day; all days of that
-- week have the same week.
pub week_of_day :
    (day other : ℕ)
    → 0 < day
    → (week_of day).0 ≤ other
    → other ≤ (week_of day).1
    → (weekday (week_of day).0 ≡ 0)
      × ((week_of day).1 ≡ (week_of day).0 + 6)
      × ((week_of day).0 ≤ day)
      × (day ≤ (week_of day).1)
      × ((week_of other).0 ≡ (week_of day).0)
unfolding week_of
week_of_day day other pos low high = (omega arith, refl, omega arith, omega arith, omega arith)

-- A fragment that a row gives is of the main type and has a positive number.
abbrev pub IsMain : ReportFragment → Type 0
IsMain f = (f.report_type ≡ 1) × (0 < f.report_id) × (f.date_from ≢ "") × (f.date_to ≢ "")

dated-IsMain :
    (kind id : ℕ) (first last created : String) (w : Option (String × String)) (f : ReportFragment)
    → (kind ≡ 1) × (0 < id) × (first ≢ "") × (last ≢ "")
    → dated kind id first last created w ≡ keep f
    → IsMain f
dated-IsMain kind id first last created none f h e = cc
dated-IsMain kind id first last created (some w) f h e = ground (arith, h)

main_only-IsMain :
    (kind id : ℕ) (first last created : String) (w : Option (String × String)) (f : ReportFragment)
    → main_only kind id first last created w ≡ keep f
    → IsMain f
main_only-IsMain kind id first last created none f e = ground arith
main_only-IsMain kind id first last created (some w) f e =
    ground (arith, streq_iff first "", streq_iff last "")

abbrev AllMain : Option (List ReportFragment) → Type 0
AllMain none = Unit
AllMain (some fs) = All IsMain fs

add_read-IsMain :
    (r : Read) (o : Option (List ReportFragment))
    → ((f : ReportFragment) → r ≡ keep f → IsMain f)
    → AllMain o
    → AllMain (add_read r o)
add_read-IsMain skip o h rest = rest
add_read-IsMain bad_date o h rest = tt
add_read-IsMain (keep f) none h rest = tt
add_read-IsMain (keep f) (some fs) h rest = (h f refl, rest)

module _ (py : Dates) where
  with_ids-IsMain :
      (k i : Option ℕ) (row : Row) (f : ReportFragment) → with_ids py k i row ≡ keep f → IsMain f
  with_ids-IsMain none i row f e = cc
  with_ids-IsMain (some k) none row f e = cc
  with_ids-IsMain (some k) (some i) row f e =
      let first = date_text py (cell "dateFrom" row) in
      main_only-IsMain k i first (date_text py (cell "dateTo" row))
        (date_text py (cell "createDate" row)) (logical_week py first) f e

  read_row-IsMain : (row : Row) (f : ReportFragment) → read_row py row ≡ keep f → IsMain f
  unfolding read_row
  read_row-IsMain row f e =
      with_ids-IsMain (int_or_zero py (cell "reportType" row))
        (int_or_zero py (cell "reportId" row)) row f e

  read_rows-IsMain : (rows : List Row) → AllMain (read_rows py rows)
  unfolding read_rows
  read_rows-IsMain [] = tt
  read_rows-IsMain (row ∷ rows) =
      add_read-IsMain (read_row py row) (read_rows py rows) (read_row-IsMain row)
        (read_rows-IsMain rows)

  All-insert_sorted :
      (f : ReportFragment) (fs : List ReportFragment)
      → IsMain f
      → All IsMain fs
      → All IsMain (insert_sorted fragment_le f fs)
  unfolding insert_sorted
  All-insert_sorted f [] h hs = (h, tt)
  All-insert_sorted f (g ∷ fs) h hs = elim (Bool-cases (fragment_le f g)) [
    | inl e ↦ rw e (h, hs)
    | inr n ↦ rw n (hs.0, All-insert_sorted f fs h hs.1)
  ]

  All-sort : (fs : List ReportFragment) → All IsMain fs → All IsMain (sort fragment_le fs)
  unfolding sort
  All-sort [] h = tt
  All-sort (f ∷ fs) h = All-insert_sorted f (sort fragment_le fs) h.0 (All-sort fs h.1)

  AllMain-sorted : (o : Option (List ReportFragment)) → AllMain o → AllMain (sorted py o)
  AllMain-sorted none h = tt
  AllMain-sorted (some fs) h = All-sort fs h

  -- Where a listing can be read, every fragment of it is of the main type with a positive number and
  -- both dates, whatever rows the provider sent.
  pub fragments_are-IsMain :
      (rows : List Row) (fs : List ReportFragment)
      → normalize_main_fragments py rows ≡ some fs
      → All IsMain fs
  unfolding normalize_main_fragments
  fragments_are-IsMain rows fs h =
      rw h at (AllMain-sorted (read_rows py rows) (read_rows-IsMain rows))
