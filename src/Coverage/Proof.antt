-- ===== src/Coverage/Proof.antt =====
-- What `evaluate_coverage` and `merge_coverage_registry` of app/core/archive_coverage.py answer.
use mcp_yandex_cloud_infra.Prelude.{
  ◌+◌, ◌≡◌, ◌≢◌, ◌↔◌, ◌⊎◌, refl, inl, inr, String, Bool, true, false, not, ◌&&◌, ◌||◌, Option, List,
  [], ◌∷◌, keep_if, length, All, In, In-keep_if, In-of_keep_if, In-map, In-of_map, Bool-cases,
  arith, string_eq, ◌==◌, streq_iff,
}
use mcp_yandex_cloud_infra.Errors.{is_in, is_in_iff}
use mcp_yandex_cloud_infra.Dict.{Dict, insert}
use mcp_yandex_cloud_infra.Json.{Json, str, truthy}
use mcp_yandex_cloud_infra.Finance.Csv.{Row, cell}
use mcp_yandex_cloud_infra.Coverage.{
  CoverageLibrary, is_full, is_void, status_of, distinct_texts, Commit, committed, rejected, text,
  text_or_blank, put_records, put_existing, parse_registry, encode_sorted, then_encode,
  merge_coverage_registry, equals, proves, complete_request_keys, evaluate_coverage,
}

In-distinct_texts : (k : String) (xs : List String) → In k xs → In k (distinct_texts xs)
unfolding distinct_texts
In-distinct_texts k [] m = absurd m
In-distinct_texts k (x ∷ xs) m =
    ground (arith, is_in_iff x (distinct_texts xs), In-distinct_texts k xs)

In-of_distinct_texts : (k : String) (xs : List String) → In k (distinct_texts xs) → In k xs
unfolding distinct_texts
In-of_distinct_texts k [] m = absurd m
In-of_distinct_texts k (x ∷ xs) m = ground (arith, In-of_distinct_texts k xs)

is_void_iff :
    (p : String → Bool) (xs : List String)
    → (is_void (keep_if p xs) ≡ true) ↔ ((k : String) → In k xs → p k ≡ false)
is_void_iff p [] = (λ h k m. absurd m, λ h. refl)
is_void_iff p (x ∷ xs) = elim (Bool-cases (p x)) [
  | inl e ↦ rw e ((λ h. cc h), λ h. cc (e, h x (inl refl)))
  | inr e ↦ rw e (
    (λ h k m. elim m [ inl q ↦ rw (← q) e | inr n ↦ (is_void_iff p xs).0 h k n ]),
    λ h. (is_void_iff p xs).1 (λ k m. h k (inr m)),
  )
]

is_void_of_In : (k : String) (xs : List String) → In k xs → is_void xs ≡ false
is_void_of_In k [] m = absurd m
is_void_of_In k (x ∷ xs) m = refl

In-of_not_void : (xs : List String) → is_void xs ≡ false → (k : String) × In k xs
In-of_not_void [] h = cc h
In-of_not_void (x ∷ xs) h = (x, inl refl)

status_full :
    (f : Bool) (e p m : List String)
    → (is_full (status_of f e p m) ≡ true)
      ↔ ((f ≡ true) × (is_void e ≡ false) × (is_void p ≡ false) × (is_void m ≡ true))
unfolding status_of
status_full f e p m = ground arith

length-split :
    (p : String → Bool) (xs : List String)
    → length (keep_if p xs) + length (keep_if (λ k. not (p k)) xs) ≡ length xs
length-split p [] = omega arith
length-split p (x ∷ xs) = ground (arith, length-split p xs)

abbrev expected_of : List String → List String
expected_of keys = distinct_texts (keep_if (λ k. not (k == "")) keys)

In-expected : (k : String) (keys : List String) → In k keys → k ≢ "" → In k (expected_of keys)
In-expected k keys m n =
    In-distinct_texts k (keep_if (λ k. not (k == "")) keys)
      (In-keep_if (λ k. not (k == "")) k keys m (ground (arith, streq_iff k "", n)))

In-of_expected : (k : String) (keys : List String) → In k (expected_of keys) → In k keys × (k ≢ "")
In-of_expected k keys m =
    let (i, h) =
      In-of_keep_if (λ k. not (k == "")) k keys
        (In-of_distinct_texts k (keep_if (λ k. not (k == "")) keys) m) in
    (i, ground (arith, streq_iff k "", h))

-- The requests of an answer that is called safe.
abbrev Proves : Bool → List String → List String → Type 0
Proves file_present expected complete =
    (file_present ≡ true)
    × ((k : String) × In k expected)
    × ((k : String) → In k expected → In k complete)

full_iff :
    (f : Bool) (expected complete : List String)
    → (is_full (
          status_of f expected
            (keep_if (λ k. is_in k complete) expected)
            (keep_if (λ k. not (is_in k complete)) expected))
        ≡ true)
      ↔ Proves f expected complete
full_iff f expected complete =
    let present = keep_if (λ k. is_in k complete) expected in
    let missing = keep_if (λ k. not (is_in k complete)) expected in
    let all = is_void_iff (λ k. not (is_in k complete)) expected in
    (
      (λ h.
          let (a, b, c, d) = (status_full f expected present missing).0 h in
          (
            a,
            In-of_not_void expected b,
            λ k m. (is_in_iff k complete).0 (ground (arith, all.0 d k m)),
          )),
      λ (a, (k, m), h). (status_full f expected present missing).1 (
        a,
        is_void_of_In k expected m,
        is_void_of_In k present
            (In-keep_if (λ k. is_in k complete) k expected m ((is_in_iff k complete).1 (h k m))),
        all.1 (λ j n. ground (arith, (is_in_iff j complete).1 (h j n))),
      ),
    )

equals_iff : (t : String) (v : Json) → (equals t v ≡ true) ↔ (v ≡ str t)
equals_iff t (str u) = ground (arith, streq_iff u t)
equals_iff t (Json.null) = (λ h. cc h, λ h. cc h)
equals_iff t (Json.bool b) = (λ h. cc h, λ h. cc h)
equals_iff t (Json.num n) = (λ h. cc h, λ h. cc h)
equals_iff t (Json.arr xs) = (λ h. cc h, λ h. cc h)
equals_iff t (Json.obj fs) = (λ h. cc h, λ h. cc h)

and_iff :
    {a b : Bool} {P Q : Type 0} → ((a ≡ true) ↔ P) → ((b ≡ true) ↔ Q) → ((a && b) ≡ true) ↔ (P × Q)
and_iff {a = true} p q = ((λ h. (p.0 refl, q.0 h)), λ (x, y). q.1 y)
and_iff {a = false} p q = ((λ h. cc h), λ (x, y). p.1 x)

or_iff :
    {a b : Bool} {P Q : Type 0} → ((a ≡ true) ↔ P) → ((b ≡ true) ↔ Q) → ((a || b) ≡ true) ↔ (P ⊎ Q)
or_iff {a = true} p q = ((λ h. inl (p.0 refl)), λ h. refl)
or_iff {a = false} p q = ((λ h. inr (q.0 h)), λ h. elim h [ inl x ↦ cc (p.1 x) | inr y ↦ q.1 y ])

-- A row of the registry that records the request of a key as complete, with a sufficient quality.
abbrev pub Records : CoverageLibrary → String → String → String → String → Row → Type 0
Records lib marketplace cabinet dataset k row =
    (cell "marketplace" row ≡ str marketplace)
    × ((cell "cabinet" row ≡ str cabinet)
        × ((cell "dataset" row ≡ str dataset)
            × ((cell "status" row ≡ str "COMPLETE")
                × (((cell "quality_status" row ≡ str "PASS")
                      ⊎ (cell "quality_status" row ≡ str "PASS_WITH_FLAGS"))
                    × ((truthy (cell "request_key" row) ≡ true)
                        × (text lib (cell "request_key" row) ≡ k))))))

module _ (lib : CoverageLibrary) (marketplace cabinet dataset : String) where
  proves_iff :
      (row : Row)
      → (proves lib marketplace cabinet dataset row ≡ true)
        ↔ Records lib marketplace cabinet dataset (text lib (cell "request_key" row)) row
  unfolding proves
  proves_iff row =
      let quality = cell "quality_status" row in
      let key = cell "request_key" row in
      let whole : (truthy key ≡ true) ↔ ((truthy key ≡ true) × (text lib key ≡ text lib key)) =
        ((λ h. (h, refl)), λ (h, e). h) in
      and_iff (equals_iff marketplace (cell "marketplace" row)) (
        and_iff (equals_iff cabinet (cell "cabinet" row)) (
          and_iff (equals_iff dataset (cell "dataset" row)) (
            and_iff (equals_iff "COMPLETE" (cell "status" row)) (
              and_iff (or_iff (equals_iff "PASS" quality) (equals_iff "PASS_WITH_FLAGS" quality))
                whole))))

  -- The registry has a row that records the request of the key.
  abbrev pub IsRecorded : Option lib.Bytes → String → Type 0
  IsRecorded file k =
      (row : Row) × (In row (parse_registry lib file)
        × Records lib marketplace cabinet dataset k row)

  IsRecorded-iff :
      (file : Option lib.Bytes) (k : String)
      → In k (complete_request_keys lib file marketplace cabinet dataset) ↔ IsRecorded file k
  unfolding complete_request_keys
  IsRecorded-iff file k =
      let key = λ (row : Row). text lib (cell "request_key" row) in
      let good = proves lib marketplace cabinet dataset in
      let rows = parse_registry lib file in
      (
        (λ m.
            let (row, i, e) = In-of_map key k (keep_if good rows) m in
            let (n, p) = In-of_keep_if good row rows i in
            let (a, (b, (c, (d, (q, (t, f)))))) = (proves_iff row).0 p in
            (row, (n, (a, (b, (c, (d, (q, (t, e))))))))),
        λ (row, (n, (a, (b, (c, (d, (q, (t, e)))))))).
            let p = (proves_iff row).1 (a, (b, (c, (d, (q, (t, refl)))))) in
            rw (← e) (In-map key row (keep_if good rows) (In-keep_if good row rows n p)),
      )

module _ (lib : CoverageLibrary) (keys : List String) (file : Option lib.Bytes)
    (marketplace cabinet dataset : String) (file_present : Bool) where
  -- An answer from the archive alone is called safe exactly when the archive file is there, some
  -- request is expected (a key that is not blank), and the registry has for every expected request a
  -- row of this marketplace, cabinet and dataset with its key, with the status COMPLETE, and with the
  -- quality PASS or PASS_WITH_FLAGS. The complete and the missing requests together are the expected
  -- ones.
  pub coverage_is_proved :
      let c = evaluate_coverage lib keys file marketplace cabinet dataset file_present in
      ((c.safe_for_archive_only_query ≡ true) ↔ (
        (file_present ≡ true)
        × ((k : String) × (In k keys × (k ≢ "")))
        × ((k : String) → In k keys → k ≢ "" → IsRecorded lib marketplace cabinet dataset file k)))
      × (c.complete_requests + c.missing_requests ≡ c.expected_requests)
  unfolding evaluate_coverage
  coverage_is_proved =
      let complete = complete_request_keys lib file marketplace cabinet dataset in
      let full = full_iff file_present (expected_of keys) complete in
      (
        (
          (λ h.
              let (a, (k, m), g) = full.0 h in
              (
                a,
                (k, In-of_expected k keys m),
                λ j n e.
                    (IsRecorded-iff lib marketplace cabinet dataset file j).0
                      (g j (In-expected j keys n e)),
              )),
          λ (a, (k, (m, e)), g). full.1 (
            a,
            (k, In-expected k keys m e),
            λ j n.
                let (i, d) = In-of_expected j keys n in
                (IsRecorded-iff lib marketplace cabinet dataset file j).1 (g j i d),
          ),
        ),
        length-split (λ k. is_in k complete) (expected_of keys),
      )

committed_of_encoded :
    {A B : Type 0} (f : A → B) (c : Commit A) (b : B)
    → then_encode f c ≡ committed b
    → (a : A) × (c ≡ committed a)
committed_of_encoded f (committed a) b e = (a, refl)
committed_of_encoded f (rejected r) b e = cc e

-- What a record of a commit has: a request key, and the status COMPLETE.
abbrev pub IsCommitted : CoverageLibrary → Row → Type 0
IsCommitted lib row =
    (text_or_blank lib "request_key" row ≢ "") × (text lib (cell "status" row) ≡ "COMPLETE")

module _ (lib : CoverageLibrary) where
  put_records-ok :
      (rows : List Row) (d : Dict String Row)
      → All (IsCommitted lib) rows
      → (d' : Dict String Row) × (put_records lib rows d ≡ committed d')
  unfolding put_records
  put_records-ok [] d h = (d, refl)
  put_records-ok (row ∷ rows) d ((n, c), h) =
      let (d', e) = put_records-ok rows (insert (text_or_blank lib "request_key" row) row d) h in
      (
        d',
        ground (
          arith,
          streq_iff (text_or_blank lib "request_key" row) "",
          streq_iff (text lib (cell "status" row)) "COMPLETE",
        ),
      )

  All-of_put_records :
      (rows : List Row) (d d' : Dict String Row)
      → put_records lib rows d ≡ committed d'
      → All (IsCommitted lib) rows
  unfolding put_records
  All-of_put_records [] d d' e = tt
  All-of_put_records (row ∷ rows) d d' e = ground (
    arith,
    streq_iff (text_or_blank lib "request_key" row) "",
    streq_iff (text lib (cell "status" row)) "COMPLETE",
    All-of_put_records rows (insert (text_or_blank lib "request_key" row) row d) d',
  )

  -- A merge into the registry is written exactly when every record has a request key and the status COMPLETE.
  pub only_complete-IsCommitted :
      (existing : Option lib.Bytes) (records : List Row)
      → ((b : lib.Bytes) × (merge_coverage_registry lib existing records ≡ committed b))
        ↔ All (IsCommitted lib) records
  unfolding merge_coverage_registry
  only_complete-IsCommitted existing records =
      let before = put_existing lib (parse_registry lib existing) [] in
      (
        (λ (b, e).
            let (d, q) =
              committed_of_encoded (encode_sorted lib) (put_records lib records before) b e in
            All-of_put_records records before d q),
        λ h. let (d, q) = put_records-ok records before h in (encode_sorted lib d, rw q refl),
      )
