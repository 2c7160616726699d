-- ===== src/Join/Passes.antt =====
-- What a result has passed if `_validate_leg_result` of app/core/request_join_controller.py finds
-- nothing in it.
use mcp_yandex_cloud_infra.Prelude.{
  ◌≡◌, ◌≢◌, ◌⊎◌, inl, inr, refl, ap, String, Bool, true, false, not, ◌&&◌, Option, none, some, List,
  [], ◌++◌, Bool-cases, arith, string_eq, pair_eq, ◌==◌, streq_iff,
}
use mcp_yandex_cloud_infra.Json.{Json, bool, get}
use mcp_yandex_cloud_infra.Join.Leg.{
  Texts, Contract, Blocker, Scope, is_dict, is_true, when, blocker, target_differs, period_differs,
  seller_differs, normalize_marketplace, canonical_seller, semantic_key, result_semantic_key,
  coverage_status, result_scope, leg_checks, validate_leg_result,
}
use mcp_yandex_cloud_infra.Join.Index.{append_nil}

-- A text that is not given, or is the one.
abbrev pub IsGivenAs : String → String → Type 0
IsGivenAs actual expected = (actual ≡ "") ⊎ (actual ≡ expected)

abbrev pub IsPeriod : String → String → Type 0
IsPeriod actual expected = (actual ≡ "") ⊎ ((expected ≡ "") ⊎ (actual ≡ expected))

when_nil : (b : Bool) (y : Blocker) → when b y ≡ [] → b ≡ false
when_nil true y e = cc e
when_nil false y e = refl

true_json : (v : Json) → not (is_true v) ≡ false → v ≡ bool true
true_json (bool true) e = refl
true_json (bool false) e = cc e
true_json (Json.null) e = cc e
true_json (Json.num n) e = cc e
true_json (Json.str s) e = cc e
true_json (Json.arr xs) e = cc e
true_json (Json.obj fs) e = cc e

target_is-Same :
    (e a : Option (String × String)) → target_differs e a ≡ false → (e ≡ none) ⊎ (a ≡ e)
target_is-Same none a h = inl refl
target_is-Same (some e) none h = cc h
target_is-Same (some e) (some a) h =
    let same : a ≡ e = (pair_eq.same_iff a e).0 (ground (arith, h)) in inr (ap some same)

given-IsPeriod : (a b : String) → period_differs a b ≡ false → IsPeriod a b
given-IsPeriod a b h = elim (Bool-cases (a == "")) [
  | inl p ↦ inl (ground (arith, p, streq_iff a ""))
  | inr p ↦ elim (Bool-cases (b == "")) [
    | inl q ↦ inr (inl (ground (arith, q, streq_iff b "")))
    | inr q ↦ inr (inr (ground (arith, h, p, q, streq_iff a b)))
  ]
]

given_text : (a b : String) → (not (a == "") && not (a == b)) ≡ false → IsGivenAs a b
given_text a b h = elim (Bool-cases (a == "")) [
  | inl p ↦ inl (ground (arith, p, streq_iff a ""))
  | inr p ↦ inr (ground (arith, h, p, streq_iff a b))
]

-- The blockers of a mapping's checks.
abbrev blockers_of : Contract → Bool → Bool → Bool → Bool → Bool → Bool → Bool → List Blocker
blockers_of c b1 b2 b3 b4 b5 b6 b7 =
    when b1 (blocker c "LEG_RESULT_NOT_SUCCESSFUL")
    ++ when b2 (blocker c "SEMANTIC_TARGET_MISMATCH")
    ++ when b3 (blocker c "COVERAGE_GATE_NOT_PROVEN")
    ++ when b4 (blocker c "MARKETPLACE_SCOPE_MISMATCH")
    ++ when b5 (blocker c "SELLER_SCOPE_MISMATCH")
    ++ when b6 (blocker c "PERIOD_SCOPE_MISMATCH")
    ++ when b7 (blocker c "PERIOD_SCOPE_MISMATCH")

no_blockers :
    (c : Contract) (b1 b2 b3 b4 b5 b6 b7 : Bool)
    → blockers_of c b1 b2 b3 b4 b5 b6 b7 ≡ []
    → (b1 ≡ false)
      × (b2 ≡ false)
      × (b3 ≡ false)
      × (b4 ≡ false)
      × (b5 ≡ false)
      × (b6 ≡ false)
      × (b7 ≡ false)
no_blockers c b1 b2 b3 b4 b5 b6 b7 e =
    let (e6, a7) = append_nil _ _ e in
    let (e5, a6) = append_nil _ _ e6 in
    let (e4, a5) = append_nil _ _ e5 in
    let (e3, a4) = append_nil _ _ e4 in
    let (e2, a3) = append_nil _ _ e3 in
    let (a1, a2) = append_nil _ _ e2 in
    (
      when_nil b1 (blocker c "LEG_RESULT_NOT_SUCCESSFUL") a1,
      when_nil b2 (blocker c "SEMANTIC_TARGET_MISMATCH") a2,
      when_nil b3 (blocker c "COVERAGE_GATE_NOT_PROVEN") a3,
      when_nil b4 (blocker c "MARKETPLACE_SCOPE_MISMATCH") a4,
      when_nil b5 (blocker c "SELLER_SCOPE_MISMATCH") a5,
      when_nil b6 (blocker c "PERIOD_SCOPE_MISMATCH") a6,
      when_nil b7 (blocker c "PERIOD_SCOPE_MISMATCH") a7,
    )

module _ (x : Texts) (s : Scope) (c : Contract) (result : Json) where
  -- The checks of one leg: it is a mapping with `ok` true, of the contract's target, with proven
  -- coverage if the contract asks for it, and with no other marketplace, seller or period.
  unfoldable pub IsPassed : Type 0
  unfolding semantic_key result_semantic_key coverage_status result_scope canonical_seller
      normalize_marketplace get
  IsPassed =
      (is_dict result ≡ true)
      × (get "ok" result ≡ bool true)
      × ((semantic_key x c.semantic_target ≡ none)
          ⊎ (result_semantic_key x result ≡ semantic_key x c.semantic_target))
      × ((c.coverage_gate ≢ "FULL_COVERAGE") ⊎ (coverage_status x result ≡ "FULL_COVERAGE"))
      × IsGivenAs (result_scope x result).marketplace (normalize_marketplace x s.marketplace)
      × (IsGivenAs (result_scope x result).seller (x.strip s.seller)
          ⊎ ((result_scope x result).seller
              ≡ canonical_seller x (normalize_marketplace x s.marketplace) s.seller))
      × IsPeriod (result_scope x result).date_from s.date_from
      × IsPeriod (result_scope x result).date_to s.date_to

  given_seller :
      (a : String)
      → seller_differs x s a ≡ false
      → IsGivenAs a (x.strip s.seller)
        ⊎ (a ≡ canonical_seller x (normalize_marketplace x s.marketplace) s.seller)
  given_seller a h =
      let canonical = canonical_seller x (normalize_marketplace x s.marketplace) s.seller in
      elim (Bool-cases (a == "")) [
        | inl p ↦ inl (inl (ground (arith, p, streq_iff a "")))
        | inr p ↦ elim (Bool-cases (a == x.strip s.seller)) [
          | inl q ↦ inl (inr (ground (arith, q, streq_iff a (x.strip s.seller))))
          | inr q ↦ inr (ground (arith, h, p, q, streq_iff a canonical))
        ]
      ]

  given_gate :
      (c.coverage_gate == "FULL_COVERAGE" && not (coverage_status x result == "FULL_COVERAGE"))
        ≡ false
      → (c.coverage_gate ≢ "FULL_COVERAGE") ⊎ (coverage_status x result ≡ "FULL_COVERAGE")
  given_gate h = elim (Bool-cases (c.coverage_gate == "FULL_COVERAGE")) [
    | inl p ↦ inr (ground (arith, h, p, streq_iff (coverage_status x result) "FULL_COVERAGE"))
    | inr p ↦ inl (ground (arith, p, streq_iff c.coverage_gate "FULL_COVERAGE"))
  ]

  checked-IsPassed : is_dict result ≡ true → leg_checks x s c result ≡ [] → IsPassed
  unfolding leg_checks IsPassed
  checked-IsPassed d e =
      let scope = result_scope x result in
      let (h1, h2, h3, h4, h5, h6, h7) =
        no_blockers c (not (is_true (get "ok" result)))
          (target_differs (semantic_key x c.semantic_target) (result_semantic_key x result))
          (c.coverage_gate == "FULL_COVERAGE" && not (coverage_status x result == "FULL_COVERAGE"))
          (not (scope.marketplace == "")
            && not (scope.marketplace == normalize_marketplace x s.marketplace))
          (seller_differs x s scope.seller) (period_differs scope.date_from s.date_from)
          (period_differs scope.date_to s.date_to) e in
      (
        d,
        true_json _ h1,
        target_is-Same _ _ h2,
        given_gate h3,
        given_text _ _ h4,
        given_seller _ h5,
        given-IsPeriod _ _ h6,
        given-IsPeriod _ _ h7,
      )

  pub validate-IsPassed : validate_leg_result x s c result ≡ [] → IsPassed
  unfolding validate_leg_result
  validate-IsPassed e = elim (Bool-cases (is_dict result)) [
    | inr d ↦ cc (rw d at e)
    | inl d ↦ checked-IsPassed d (rw d at e)
  ]
