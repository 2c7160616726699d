-- ===== src/Coverage.antt =====
-- app/core/archive_coverage.py: the registry of durable requests, and what it proves about a
-- question.
pub mod Proof
use Prim.Native.Nat.{Ordering}
use Prim.Native.String.{compare}
use mcp_yandex_cloud_infra.Prelude.{
  ℕ, String, Bool, true, false, ◌&&◌, ◌||◌, not, Option, none, some, List, [], ◌∷◌, map, keep_if,
  length, string_eq, nat_eq, ◌==◌, if◌then◌else◌,
}
use mcp_yandex_cloud_infra.Prelude.Sort.{sort}
use mcp_yandex_cloud_infra.Dict.{Dict, insert, lookup}
use mcp_yandex_cloud_infra.Json.{Json, null, bool, num, str, arr, obj, truthy}
use mcp_yandex_cloud_infra.Errors.{is_in}
use mcp_yandex_cloud_infra.Finance.Csv.{Row, cell}

-- Files and the modules csv and codecs: `read` is `csv.DictReader` on the decoded bytes, `write`
-- `csv.DictWriter` on a header and the cells of each row, `show` is `str` on a value that is no
-- text.
pub record CoverageLibrary : Type 1 where
  pub Bytes : Type 0
  pub is_blank : Bytes → Bool
  pub read : Bytes → List Row
  pub write : List String → List (List String) → Bytes
  pub show : Json → String

abbrev pub coverage_fields : List String
coverage_fields =
    "registry_version" ∷ "marketplace" ∷ "cabinet" ∷ "dataset" ∷ "operation_id" ∷ "request_key"
    ∷ "date_from" ∷ "date_to" ∷ "scope_kind" ∷ "scope_count" ∷ "scope_hash" ∷ "scope_json"
    ∷ "annual_file" ∷ "rows" ∷ "bytes" ∷ "sha256" ∷ "quality_status" ∷ "quality_flags" ∷ "status"
    ∷ "completed_at_utc" ∷ []

-- `value == text`
abbrev pub equals : String → Json → Bool
equals s (str t) = t == s
equals s _ = false

abbrev text_lt : String → String → Bool
text_lt s t = elim (compare s t) [ Ordering.lt ↦ true | _ ↦ false ]

-- The order of tuples of texts.
unfoldable pub tuple_le : List String → List String → Bool
tuple_le [] ts = true
tuple_le (s ∷ ss) [] = false
tuple_le (s ∷ ss) (t ∷ ts) = let rest = tuple_le ss ts in text_lt s t || (s == t && rest)

-- `set(...)`, as a list without repetitions.
unfoldable pub distinct_texts : List String → List String
distinct_texts [] = []
distinct_texts (s ∷ ss) = let rest = distinct_texts ss in if is_in s rest then rest else s ∷ rest

-- What the rows of a merge end in: the rows by key, or a ValueError.
pub data Commit (A : Type 0) : Type 0 where
  committed : A → Commit A
  rejected : String → Commit A

abbrev pub then_encode : {A B : Type 0} → (A → B) → Commit A → Commit B
then_encode f (committed a) = committed (f a)
then_encode f (rejected e) = rejected e

pub data CoverageStatus : Type 0 where
  archive_file_missing no_expected_requests no_coverage partial_coverage full_coverage :
      CoverageStatus

pub record Coverage : Type 0 where
  pub status : CoverageStatus
  pub expected_requests : ℕ
  pub complete_requests : ℕ
  pub missing_requests : ℕ
  pub safe_for_archive_only_query : Bool

abbrev pub is_full : CoverageStatus → Bool
is_full full_coverage = true
is_full _ = false

abbrev pub is_void {ℓ} : {A : Type ℓ} → List A → Bool
is_void [] = true
is_void (x ∷ xs) = false

unfoldable pub status_of : Bool → List String → List String → List String → CoverageStatus
status_of file_present expected present missing =
    if not file_present && not (is_void expected)
    then archive_file_missing
    else if is_void expected
    then no_expected_requests
    else if is_void present
    then no_coverage
    else if is_void missing
    then full_coverage
    else partial_coverage

module _ (lib : CoverageLibrary) where
  open lib use {Bytes, is_blank, read, write, show}

  -- `str(value)`
  abbrev pub text : Json → String
  text (str s) = s
  text v = show v

  -- `str(row.get(name) or "")`
  abbrev pub text_or_blank : String → Row → String
  text_or_blank name row = if truthy (cell name row) then text (cell name row) else ""

  -- `"" if row.get(name) is None else str(row.get(name))`
  abbrev pub cell_text : String → Row → String
  cell_text name row = elim (cell name row) [ null ↦ "" | v ↦ text v ]

  unfoldable pub parse_registry : Option Bytes → List Row
  parse_registry none = []
  parse_registry (some b) = if is_blank b then [] else read b

  unfoldable pub encode_registry : List Row → Bytes
  unfolding lookup
  encode_registry rows =
      write coverage_fields (map (λ row. map (λ name. cell_text name row) coverage_fields) rows)

  unfoldable pub put_existing : List Row → Dict String Row → Dict String Row
  unfolding insert lookup
  put_existing [] d = d
  put_existing (row ∷ rows) d =
      let key = text_or_blank "request_key" row in
      put_existing rows (if key == "" then d else insert key row d)

  unfoldable pub put_records : List Row → Dict String Row → Commit (Dict String Row)
  unfolding insert lookup
  put_records [] d = committed d
  put_records (row ∷ rows) d =
      let key = text_or_blank "request_key" row in
      let rest = put_records rows (insert key row d) in
      if key == ""
      then rejected "coverage record has no request_key"
      else if text (cell "status" row) == "COMPLETE"
      then rest
      else rejected "only COMPLETE coverage records may be committed"

  abbrev pub order_key : Row → List String
  order_key row =
      map (λ name. text_or_blank name row)
        ("marketplace" ∷ "cabinet" ∷ "dataset" ∷ "date_from" ∷ "date_to" ∷ "request_key" ∷ [])

  unfoldable pub encode_sorted : Dict String Row → Bytes
  unfolding encode_registry tuple_le
  encode_sorted d =
      encode_registry (sort (λ a b. tuple_le (order_key a) (order_key b)) (map (λ e. e.1) d))

  unfoldable pub merge_coverage_registry : Option Bytes → List Row → Commit Bytes
  merge_coverage_registry existing records =
      then_encode encode_sorted (put_records records (put_existing (parse_registry existing) []))

  -- The condition of the set that `complete_request_keys` returns.
  unfoldable pub proves : String → String → String → Row → Bool
  unfolding lookup
  proves marketplace cabinet dataset row =
      equals marketplace (cell "marketplace" row)
      && (equals cabinet (cell "cabinet" row)
          && (equals dataset (cell "dataset" row)
              && (equals "COMPLETE" (cell "status" row)
                  && ((equals "PASS" (cell "quality_status" row)
                        || equals "PASS_WITH_FLAGS" (cell "quality_status" row))
                      && truthy (cell "request_key" row)))))

  unfoldable pub complete_request_keys : Option Bytes → String → String → String → List String
  unfolding proves
  complete_request_keys file marketplace cabinet dataset =
      map (λ row. text (cell "request_key" row))
        (keep_if (proves marketplace cabinet dataset) (parse_registry file))

  unfoldable pub evaluate_coverage :
      List String → Option Bytes → String → String → String → Bool → Coverage
  unfolding distinct_texts status_of
  evaluate_coverage keys file marketplace cabinet dataset file_present =
      let expected = distinct_texts (keep_if (λ k. not (k == "")) keys) in
      let complete = complete_request_keys file marketplace cabinet dataset in
      let present = keep_if (λ k. is_in k complete) expected in
      let missing = keep_if (λ k. not (is_in k complete)) expected in
      let status = status_of file_present expected present missing in
      record {
        status = status;
        expected_requests = length expected;
        complete_requests = length present;
        missing_requests = length missing;
        safe_for_archive_only_query = is_full status;
      }
