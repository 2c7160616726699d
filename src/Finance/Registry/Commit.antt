-- ===== src/Finance/Registry/Commit.antt =====
-- What `registry_complete_ids` of app/core/wb_finance_archive.py reads from a file that
-- `merge_registry` wrote.
use mcp_yandex_cloud_infra.Prelude.{
  ℕ, ◌+◌, ◌≡◌, ◌≢◌, ◌⊎◌, refl, ◌∙◌, inl, inr, String, Bool, true, false, ◌&&◌, leb, nat_eq, Option,
  none, some, List, [], ◌∷◌, map, arith, In, In-map, In-of_map, string_eq, pair_eq, ◌==◌,
  Bool-cases, streq_refl,
}
use mcp_yandex_cloud_infra.Prelude.Sort.{sort, In-sort}
use mcp_yandex_cloud_infra.Dict.{Dict, lookup, insert}
use mcp_yandex_cloud_infra.Json.{str}
use mcp_yandex_cloud_infra.Finance.Csv.{
  Row, Library, text_of, stringify, parse_csv_bytes, encode_csv, or_nothing, int_or_zero,
}
use mcp_yandex_cloud_infra.Finance.Registry.{
  dataset, registry_fields, RegistryKey, SortKey, key_le, key_from, cons_some, written,
  registry_key, is_whole, put_rows, with_keys, merge_registry, row_id, is_complete, complete_ids,
  registry_complete_ids,
}

-- The row that a CSV file holds: the text of each cell.
abbrev pub as_texts : Library → List String → Row → Row
as_texts lib fields row = map (λ name. (name, str (text_of lib name row))) fields

-- The field size limit of the csv module.
abbrev field_limit : ℕ
field_limit = 131072

abbrev size_of : String → ℕ
size_of String.[] = 0
size_of (String.◌∷◌ c s) = size_of s + 1

abbrev cells_fit : Library → List String → Row → Bool
cells_fit lib [] row = true
cells_fit lib (name ∷ names) row =
    leb (size_of (text_of lib name row)) field_limit && cells_fit lib names row

-- No cell is longer than the limit.
unfoldable pub rows_fit : Library → List Row → Bool
rows_fit lib [] = true
rows_fit lib (row ∷ rows) = cells_fit lib registry_fields row && rows_fit lib rows

-- What the code relies on: `decode("utf-8-sig")` undoes the mark and the encoding, a file with the
-- mark is not empty, and a `csv.DictReader` with the delimiter of a `csv.DictWriter` reads its table
-- back, if its cells fit.
pub record CsvLaws (lib : Library) : Type 0 where
  pub decode-encode : (t : lib.Text) → lib.decode (lib.encode t) ≡ t
  pub size-encode : (t : lib.Text) → lib.size (lib.encode t) ≢ 0
  pub read-write :
      (rows : List Row)
      → rows_fit lib rows ≡ true
      → lib.read ";" (
          lib.write registry_fields
            (map (λ row. map (λ name. text_of lib name row) registry_fields) rows))
        ≡ (registry_fields, map (as_texts lib registry_fields) rows)

-- What the sniffer finds in a file that has to be read with a semicolon.
abbrev pub IsSemicolon : Option String → Type 0
IsSemicolon o = (o ≡ none) ⊎ (o ≡ some ";")

-- The rows of a merge, in the order in which they are written.
abbrev sorted_rows : Option (List (SortKey × Row)) → List Row
sorted_rows none = []
sorted_rows (some keyed) = map (λ e. e.1) (sort key_le keyed)

unfoldable pub merged_rows : (lib : Library) → Option lib.Bytes → List Row → List Row
unfolding with_keys put_rows parse_csv_bytes
merged_rows lib existing records =
    let old = put_rows lib [] (parse_csv_bytes lib (or_nothing lib existing)).1 in
    sorted_rows (with_keys lib (map (λ e. e.1) (put_rows lib old records)))

In-insert :
    (k : RegistryKey) (row : Row) (d : Dict RegistryKey Row)
    → In row (map (λ e. e.1) (insert k row d))
unfolding insert
In-insert k row [] = inl refl
In-insert k row ((j, w) ∷ d) = elim (Bool-cases (j == k)) [
  | inl e ↦ rw e (inl refl)
  | inr n ↦ rw n (inr (In-insert k row d))
]

cons_some-eq_some :
    (a : Option (SortKey × Row)) (b : Option (List (SortKey × Row))) (keyed : List (SortKey × Row))
    → cons_some a b ≡ some keyed
    → (k : SortKey × Row) × (ks : List (SortKey × Row)) × (a ≡ some k)
      × (b ≡ some ks)
      × (k ∷ ks ≡ keyed)
cons_some-eq_some none b keyed h = cc
cons_some-eq_some (some k) none keyed h = cc
cons_some-eq_some (some k) (some ks) keyed h = (k, ks, refl, refl, ground arith)

module _ (lib : Library) where
  key_from-row :
      (row : Row) (o : Option ℕ) (k : SortKey × Row) → key_from lib row o ≡ some k → k.1 ≡ row
  key_from-row row none k h = cc
  key_from-row row (some n) k h = ground arith

  In-with_keys :
      (row : Row) (rows : List Row) (keyed : List (SortKey × Row))
      → In row rows
      → with_keys lib rows ≡ some keyed
      → In row (map (λ e. e.1) keyed)
  unfolding with_keys
  In-with_keys row [] keyed i h = absurd i
  In-with_keys row (q ∷ rows) keyed i h =
      let o = int_or_zero lib (text_of lib "report_id" q) in
      let (k, ks, a, b, e) = cons_some-eq_some (key_from lib q o) (with_keys lib rows) keyed h in
      rw (← e) (found k ks (key_from-row q o k a) (λ m. In-with_keys row rows ks m b) i)
    where
      found :
          (k : SortKey × Row) (ks : List (SortKey × Row))
          → k.1 ≡ q
          → (In row rows → In row (map (λ e. e.1) ks))
          → In row (q ∷ rows)
          → In row (map (λ e. e.1) (k ∷ ks))
      found k ks same rest (inl p) = inl (same ∙ p)
      found k ks same rest (inr m) = inr (rest m)

  In-complete_ids :
      (c : String) (row : Row) (rows : List Row) {n : ℕ}
      → In row rows
      → is_complete lib c row ≡ true
      → row_id lib row ≡ some n
      → In n (complete_ids lib c rows)
  unfolding complete_ids
  In-complete_ids c row [] i h e = absurd i
  In-complete_ids c row (q ∷ rows) {n} (inl p) h e = rw (p, h, e) (inl refl)
  In-complete_ids c row (q ∷ rows) {n} (inr i) h e =
      ground (arith, In-complete_ids c row rows {n = n} i h e)

  complete_cell :
      (c : String) (row : Row)
      → text_of lib "cabinet" row ≡ c
      → text_of lib "dataset" row ≡ dataset
      → text_of lib "status" row ≡ "COMPLETE"
      → is_complete lib c (as_texts lib registry_fields row) ≡ true
  unfolding is_complete
  complete_cell c row hc hd hs = rw (hc, hd, hs, streq_refl c)

  file_of_written :
      (keyed : Option (List (SortKey × Row))) (b : lib.Bytes)
      → written lib keyed ≡ some b
      → (ks : List (SortKey × Row)) × (keyed ≡ some ks)
        × (encode_csv lib registry_fields (map (λ e. e.1) (sort key_le ks)) ≡ b)
  file_of_written none b h = cc
  file_of_written (some ks) b h = (ks, refl, ground arith)

  In-of_put :
      (d : Dict RegistryKey Row) (row : Row)
      → is_whole (registry_key lib row) ≡ true
      → In row (map (λ e. e.1) (put_rows lib d (row ∷ [])))
  unfolding put_rows
  In-of_put d row whole = rw whole (In-insert (registry_key lib row) row d)

  In-of_sorted :
      (row : Row) (ks : List (SortKey × Row))
      → In row (map (λ e. e.1) ks)
      → In row (map (λ e. e.1) (sort key_le ks))
  In-of_sorted row ks m =
      let (k, i, e) = In-of_map (λ (x : SortKey × Row). x.1) row ks m in
      rw (← e) (In-map (λ (x : SortKey × Row). x.1) k (sort key_le ks) (In-sort key_le k ks i))

  -- A file that `encode_csv` wrote is read back cell by cell by `parse_csv_bytes`.
  parse-encode :
      (rows : List Row)
      → CsvLaws lib
      → rows_fit lib rows ≡ true
      → IsSemicolon (lib.sniff (lib.sample (lib.decode (encode_csv lib registry_fields rows))))
      → (parse_csv_bytes lib (encode_csv lib registry_fields rows)).1
        ≡ map (as_texts lib registry_fields) rows
  unfolding parse_csv_bytes encode_csv
  parse-encode rows laws fit sniffed =
      let table =
        lib.write registry_fields
          (map (λ row. map (λ name. text_of lib name row) registry_fields) rows) in
      let full : lib.size (lib.encode table) == 0 ≡ false =
        ground (arith, laws.size-encode table) in
      rw (full, laws.decode-encode table)
        (elim (rw (laws.decode-encode table) at sniffed) [
          | inl e ↦ rw (e, laws.read-write rows fit) refl
          | inr e ↦ rw (e, laws.read-write rows fit) refl
        ])

  -- After a successful merge of one record for cabinet `c`, in the archive's dataset and with status
  -- COMPLETE, the report number of the record is among the complete ids that are read from the file, if
  -- no written cell is longer than the csv module's limit, `csv.Sniffer` takes the file's delimiter for
  -- a semicolon or finds none, and the csv module and the codec read back what they write.
  pub committed_is_complete :
      (existing : Option lib.Bytes) (row : Row) (b : lib.Bytes) (c : String) (n : ℕ)
      → CsvLaws lib
      → rows_fit lib (merged_rows lib existing (row ∷ [])) ≡ true
      → IsSemicolon (lib.sniff (lib.sample (lib.decode b)))
      → is_whole (registry_key lib row) ≡ true
      → text_of lib "cabinet" row ≡ c
      → text_of lib "dataset" row ≡ dataset
      → text_of lib "status" row ≡ "COMPLETE"
      → int_or_zero lib (text_of lib "report_id" row) ≡ some n
      → merge_registry lib existing (row ∷ []) ≡ some b
      → In n (registry_complete_ids lib (some b) c)
  unfolding merge_registry registry_complete_ids merged_rows
  committed_is_complete existing row b c n laws fit sniffed whole hc hd hs hn h =
      let old = put_rows lib [] (parse_csv_bytes lib (or_nothing lib existing)).1 in
      let stored = map (λ e. e.1) (put_rows lib old (row ∷ [])) in
      let (ks, keyed, file) = file_of_written (with_keys lib stored) b h in
      let rows = map (λ e. e.1) (sort key_le ks) in
      let inside : In row rows =
        In-of_sorted row ks (In-with_keys row stored ks (In-of_put old row whole) keyed) in
      let back = parse-encode rows laws (rw keyed at fit) (rw (← file) at sniffed) in
      rw (← file, back)
        (In-complete_ids c (as_texts lib registry_fields row)
          (map (as_texts lib registry_fields) rows) {n = n}
          (In-map (as_texts lib registry_fields) row rows inside) (complete_cell c row hc hd hs)
          (unfold stringify lookup in hn))
