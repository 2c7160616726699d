-- ===== src/Join/Index.antt =====
-- The index of the supplied results, in app/core/request_join_controller.py: what it says when no
-- envelope was refused.
use mcp_yandex_cloud_infra.Prelude.{
  ◌≡◌, ◌≢◌, ◌⊎◌, inl, inr, refl, String, true, false, Option, none, some, List, [], ◌∷◌, ◌++◌, map,
  In, All, Bool-cases, arith, string_eq, ◌==◌, streq_iff,
}
use mcp_yandex_cloud_infra.Dict.{Dict, lookup, insert, lookup-insert}
use mcp_yandex_cloud_infra.Json.{Json, get}
use mcp_yandex_cloud_infra.Join.Leg.{Texts, is_dict}
use mcp_yandex_cloud_infra.Join.Control.{Indexed, is_some, supplied_id, index_result, index_results}

pub append_nil : {A : Type 0} (xs ys : List A) → xs ++ ys ≡ [] → (xs ≡ []) × (ys ≡ [])
append_nil [] ys e = (refl, e)
append_nil (x ∷ xs) ys e = cc e

snoc_nil : {A : Type 0} (xs : List A) (y : A) → xs ++ y ∷ [] ≢ []
snoc_nil [] y e = cc e
snoc_nil (x ∷ xs) y e = cc e

none_of : (o : Option Json) → is_some o ≡ false → o ≡ none
none_of none e = refl
none_of (some v) e = cc e

-- No text occurs twice.
abbrev pub Distinct : List String → Type 0
Distinct [] = Unit
Distinct (k ∷ ks) = (¬ In k ks) × Distinct ks

module _ (x : Texts) where
  -- An envelope is a mapping with a contract id.
  abbrev pub IsEnvelope : Json → Type 0
  IsEnvelope item = (is_dict item ≡ true) × (supplied_id x item ≢ "")

  taken :
      (item : Json) (i : Indexed)
      → (index_result x item i).blockers ≡ []
      → (i.blockers ≡ [])
        × IsEnvelope item
        × (lookup (supplied_id x item) i.results ≡ none)
        × ((index_result x item i).results
            ≡ insert (supplied_id x item) (get "result" item) i.results)
  unfolding index_result
  taken item i e = elim (Bool-cases (is_dict item)) [
    | inr d ↦ absurd (snoc_nil i.blockers _ (rw d at e))
    | inl d ↦ elim (Bool-cases (supplied_id x item == "")) [
      | inl q ↦ absurd (snoc_nil i.blockers _ (rw (d, q) at e))
      | inr q ↦ elim (Bool-cases (is_some (lookup (supplied_id x item) i.results))) [
        | inl s ↦ absurd (snoc_nil i.blockers _ (rw (d, q, s) at e))
        | inr s ↦ (
          rw (d, q, s) at e,
          (d, ground (arith, q, streq_iff (supplied_id x item) "")),
          none_of _ s,
          rw (d, q, s) refl,
        )
      ]
    ]
  ]

  abbrev pub ids_of : List Json → List String
  ids_of items = map (supplied_id x) items

  -- What a final index says of the items since an earlier one.
  unfoldable pub Indexes : List Json → Dict String Json → Dict String Json → Type 0
  Indexes items before after =
      All IsEnvelope items
      × Distinct (ids_of items)
      × ((k : String) (v : Json)
          → lookup k before ≡ some v
          → (lookup k after ≡ some v) × (¬ In k (ids_of items)))
      × ((item : Json)
          → In item items
          → lookup (supplied_id x item) after ≡ some (get "result" item))
      × ((k : String) (v : Json)
          → lookup k after ≡ some v
          → (lookup k before ≡ some v)
            ⊎ ((item : Json) × (In item items
                  × (supplied_id x item ≡ k)
                  × (get "result" item ≡ v))))

  from_insert :
      (item : Json) (items : List Json) (before : Dict String Json) (q : String) (v : Json)
      → lookup q (insert (supplied_id x item) (get "result" item) before) ≡ some v
      → (lookup q before ≡ some v)
        ⊎ ((it : Json) × (In it (item ∷ items) × (supplied_id x it ≡ q) × (get "result" it ≡ v)))
  from_insert item items before q v z =
      let id = supplied_id x item in
      let res = get "result" item in
      let e = lookup-insert id q res before in
      elim (Bool-cases (id == q)) [
        | inl w ↦
            let same : some res ≡ some v = ground (arith, z, e, w) in
            inr (item, (inl refl, ground (arith, w, streq_iff id q), cc same))
        | inr w ↦ inl (ground (arith, z, e, w))
      ]

  added-Indexes :
      (item : Json) (items : List Json) (before after : Dict String Json)
      → IsEnvelope item
      → lookup (supplied_id x item) before ≡ none
      → Indexes items (insert (supplied_id x item) (get "result" item) before) after
      → Indexes (item ∷ items) before after
  unfolding Indexes
  added-Indexes item items before after h n (a, d, k, l, o) =
      let id = supplied_id x item in
      let res = get "result" item in
      let new : lookup id (insert id res before) ≡ some res =
        ground (arith, lookup-insert id id res before, streq_iff id id) in
      (
        (h, a),
        ((k id res new).1, d),
        (λ q v e.
            let other : id ≢ q = λ z. cc (z, e, n) in
            let old : lookup q (insert id res before) ≡ some v =
              ground (arith, e, other, lookup-insert id q res before, streq_iff id q) in
            ((k q v old).0, λ m. elim m [ inl z ↦ other z | inr z ↦ (k q v old).1 z ])),
        (λ other. elim [ inl z ↦ rw (← z) (k id res new).0 | inr z ↦ l other z ]),
        (λ q v e. elim (o q v e) [
          | inr (it, (m, p, u)) ↦ inr (it, (inr m, p, u))
          | inl z ↦ from_insert item items before q v z
        ]),
      )

  pub index-Indexes :
      (items : List Json) (i : Indexed)
      → (index_results x items i).blockers ≡ []
      → (i.blockers ≡ []) × Indexes items i.results (index_results x items i).results
  unfolding index_results Indexes
  index-Indexes [] i e = (e, (tt, tt, (λ k v h. (h, λ z. z)), (λ it z. absurd z), (λ k v h. inl h)))
  index-Indexes (item ∷ items) i e =
      let (b, a) = index-Indexes items (index_result x item i) e in
      let (c, h, n, s) = taken item i b in
      (
        c,
        added-Indexes item items i.results (index_results x items (index_result x item i)).results h
            n (rw s at a),
      )
