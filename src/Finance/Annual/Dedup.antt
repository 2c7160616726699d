-- ===== src/Finance/Annual/Dedup.antt =====
-- The rows that `merge_annual_csv` of app/core/wb_finance_archive.py keeps of each key.
use mcp_yandex_cloud_infra.Prelude.{
  ◌≡◌, refl, inl, inr, String, Bool, true, Option, none, some, List, [], ◌∷◌, arith, In, string_eq,
  pair_eq, ◌==◌, if◌then◌else◌, pair_beq_iff, beq_refl,
}
use mcp_yandex_cloud_infra.Dict.{lookup, lookup-insert}
use mcp_yandex_cloud_infra.Errors.{is_in}
use mcp_yandex_cloud_infra.Finance.Csv.{Row, Library}
use mcp_yandex_cloud_infra.Finance.Annual.{
  Merge, is_some, row_key, is_keyed, marker, add_row, add_rows,
}

abbrev or_else {ℓ} : {A : Type ℓ} → Option A → Option A → Option A
or_else none d = d
or_else (some a) d = some a

module _ (lib : Library) (names : List String) where
  abbrev own : String × String → Row → Option Row
  own k row = if is_keyed lib row then if row_key lib row == k then some row else none else none

  -- The first row with both numbers that has the key.
  unfoldable pub first_with : String × String → List Row → Option Row
  first_with k [] = none
  first_with k (row ∷ rows) = or_else (own k row) (first_with k rows)

  -- Whether the row's key or marker is stored.
  unfoldable pub has : Merge → Row → Bool
  has m row =
      if is_keyed lib row
      then is_some (lookup (row_key lib row) m.by_key)
      else is_in (marker lib names row) m.markers

  lookup-add_row :
      (m : Merge) (row : Row) (k : String × String)
      → lookup k (add_row lib names m row).by_key ≡ or_else (lookup k m.by_key) (own k row)
  unfolding add_row
  lookup-add_row m row k =
      ground
        (arith, lookup-insert (row_key lib row) k row m.by_key, pair_beq_iff (row_key lib row) k)

  has-add_row_self : (m : Merge) (row : Row) → has (add_row lib names m row) row ≡ true
  unfolding add_row has
  has-add_row_self m row = ground (
    arith,
    lookup-insert (row_key lib row) (row_key lib row) row m.by_key,
    pair_beq_iff (row_key lib row) (row_key lib row),
    beq_refl (marker lib names row),
  )

  has-add_row :
      (m : Merge) (q row : Row) → has m row ≡ true → has (add_row lib names m q) row ≡ true
  unfolding add_row has
  has-add_row m q row h = ground (arith, lookup-insert (row_key lib q) (row_key lib row) q m.by_key)

  add_row_had : (m : Merge) (row : Row) → has m row ≡ true → add_row lib names m row ≡ m
  unfolding add_row has
  add_row_had m row h = ground arith

  -- A key that was stored keeps its row; another key gets the first of the added rows that has it,
  -- if any.
  pub first_row_wins :
      (rows : List Row) (m : Merge) (k : String × String)
      → lookup k (add_rows lib names m rows).by_key
        ≡ or_else (lookup k m.by_key) (first_with k rows)
  unfolding add_rows first_with
  first_row_wins [] m k = ground arith
  first_row_wins (row ∷ rows) m k =
      ground (arith, first_row_wins rows (add_row lib names m row) k, lookup-add_row m row k)

  has-add_rows :
      (rows : List Row) (m : Merge) (row : Row)
      → has m row ≡ true
      → has (add_rows lib names m rows) row ≡ true
  unfolding add_rows
  has-add_rows [] m row h = h
  has-add_rows (q ∷ rows) m row h =
      has-add_rows rows (add_row lib names m q) row (has-add_row m q row h)

  has_of_In :
      (rows : List Row) (m : Merge) (row : Row)
      → In row rows
      → has (add_rows lib names m rows) row ≡ true
  unfolding add_rows
  has_of_In [] m row i = absurd i
  has_of_In (q ∷ rows) m row (inl e) =
      has-add_rows rows (add_row lib names m q) row (rw e (has-add_row_self m row))
  has_of_In (q ∷ rows) m row (inr i) = has_of_In rows (add_row lib names m q) row i

  all_had :
      (rows : List Row) (m : Merge)
      → ((row : Row) → In row rows → has m row ≡ true)
      → add_rows lib names m rows ≡ m
  unfolding add_rows
  all_had [] m h = refl
  all_had (row ∷ rows) m h =
      rw (add_row_had m row (h row (inl refl))) (all_had rows m (λ r i. h r (inr i)))

  -- Rows that were added before, in any order, are not stored again: the merge stays as it is.
  pub added_again :
      (m : Merge) (rows later : List Row)
      → ((row : Row) → In row later → In row rows)
      → add_rows lib names (add_rows lib names m rows) later ≡ add_rows lib names m rows
  added_again m rows later sub =
      all_had later (add_rows lib names m rows) (λ row i. has_of_In rows m row (sub row i))
