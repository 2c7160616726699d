-- ===== src/Join/Closed.antt =====
-- When `control_marketplace_join` of app/core/request_join_controller.py is ready.
use mcp_yandex_cloud_infra.Prelude.{
  ◌≤◌, ◌≡◌, ◌≢◌, ◌⊎◌, inl, inr, refl, ap, String, Bool, true, false, not, some, List, [], ◌∷◌, map,
  In, All, Bool-cases, length, ltb, arith, string_eq, ◌==◌, streq_iff, if◌then◌else◌,
}
use mcp_yandex_cloud_infra.Dict.{Dict, lookup}
use mcp_yandex_cloud_infra.Json.{Json, get}
use mcp_yandex_cloud_infra.Errors.{is_in}
use mcp_yandex_cloud_infra.Join.Leg.{
  Texts, Contract, Blocker, Scope, normalize_marketplace, validate_leg_result,
}
use mcp_yandex_cloud_infra.Join.Control
use mcp_yandex_cloud_infra.Join.Control.{
  Execution, Ask, Decision, ready, blocked, clarification, Indexed, supplied_id, is_subset,
  contract_ids, result_ids, if_outside, leg_blockers, joined_legs, index_results, decide, join_legs,
  is_registered, control_marketplace_join,
}
use mcp_yandex_cloud_infra.Join.Index.{
  append_nil, Distinct, IsEnvelope, ids_of, Indexes, index-Indexes,
}
use mcp_yandex_cloud_infra.Join.Passes.{IsPassed, validate-IsPassed}

inside :
    (ids others : List String) (kind : String)
    → if_outside ids others kind ≡ []
    → is_subset ids others ≡ true
inside ids others kind e = elim (Bool-cases (is_subset ids others)) [
  | inl t ↦ t
  | inr f ↦ cc (rw f at e)
]

In_of : (a : String) (ids : List String) → is_in a ids ≡ true → In a ids
In_of a [] e = cc e
In_of a (b ∷ ids) e = elim (Bool-cases (b == a)) [
  | inl t ↦ inl (ground (arith, t, streq_iff b a))
  | inr f ↦ inr (In_of a ids (rw f at e))
]

subset_split :
    (b : String) (ids others : List String)
    → is_subset (b ∷ ids) others ≡ true
    → (is_in b others ≡ true) × (is_subset ids others ≡ true)
unfolding is_subset
subset_split b ids others e = ground (arith, e)

subset-In :
    (ids others : List String) (a : String) → is_subset ids others ≡ true → In a ids → In a others
subset-In [] others a e m = absurd m
subset-In (b ∷ ids) others a e (inl p) = rw (← p) (In_of b others (subset_split b ids others e).0)
subset-In (b ∷ ids) others a e (inr m) = subset-In ids others a (subset_split b ids others e).1 m

-- A key of the index has a value.
key_of :
    (k : String) (d : Dict String Json) → In k (result_ids d) → (v : Json) × (lookup k d ≡ some v)
unfolding lookup
key_of k [] m = absurd m
key_of k ((j, v) ∷ d) (inl p) = (v, ground (arith, p, streq_iff j k))
key_of k ((j, v) ∷ d) (inr m) = elim (Bool-cases (j == k)) [
  | inl t ↦ (v, rw t refl)
  | inr f ↦ rw f (key_of k d m)
]

has_key : (k : String) (v : Json) (d : Dict String Json) → lookup k d ≡ some v → In k (result_ids d)
unfolding lookup
has_key k v [] e = cc e
has_key k v ((j, u) ∷ d) e = elim (Bool-cases (j == k)) [
  | inl t ↦ inl (ground (arith, t, streq_iff j k))
  | inr f ↦ inr (has_key k v d (rw f at e))
]

-- The contract of an id.
contract_of :
    (k : String) (cs : List Contract)
    → In k (contract_ids cs)
    → (c : Contract) × (In c cs × (c.contract_id ≡ k))
contract_of k [] m = absurd m
contract_of k (c ∷ cs) (inl e) = (c, (inl refl, e))
contract_of k (c ∷ cs) (inr m) = let (b, (i, e)) = contract_of k cs m in (b, (inr i, e))

id_of : (c : Contract) (cs : List Contract) → In c cs → In c.contract_id (contract_ids cs)
id_of c [] m = absurd m
id_of c (b ∷ cs) (inl e) = inl (ap (λ z. z.contract_id) e)
id_of c (b ∷ cs) (inr m) = inr (id_of c cs m)

module _ (x : Texts) (s : Scope) where
  -- The legs that are joined, each with the result that is indexed under its id.
  abbrev IsLeg : Dict String Json → Contract × Json → Type 0
  IsLeg results l = (lookup l.0.contract_id results ≡ some l.1) × IsPassed x s l.0 l.1

  cons-IsLeg :
      (results : Dict String Json) (c : Contract) (v : Json) (legs : List (Contract × Json))
      → lookup c.contract_id results ≡ some v
      → validate_leg_result x s c v ≡ []
      → All (IsLeg results) legs
      → All (IsLeg results) ((c, v) ∷ legs)
  cons-IsLeg results c v legs e p a = ((e, validate-IsPassed x s c v p), a)

  legs_are-Passed :
      (results : Dict String Json) (cs : List Contract)
      → ((c : Contract) → In c cs → (v : Json) × (lookup c.contract_id results ≡ some v))
      → leg_blockers x s results cs ≡ []
      → (map (λ l. l.0) (joined_legs results cs) ≡ cs)
        × All (IsLeg results) (joined_legs results cs)
  unfolding leg_blockers joined_legs
  legs_are-Passed results [] h e = (refl, tt)
  legs_are-Passed results (c ∷ cs) h e =
      let (v, q) = h c (inl refl) in
      let (a, b) =
        append_nil (validate_leg_result x s c v) (leg_blockers x s results cs) (rw q at e) in
      let (m, l) = legs_are-Passed results cs (λ d i. h d (inr i)) b in
      (rw q (ap (λ ds. c ∷ ds) m), rw q (cons-IsLeg results c v (joined_legs results cs) q a l))

pointwise : {A : Type 0} (P : A → Type 0) (xs : List A) → ((a : A) → In a xs → P a) → All P xs
pointwise P [] h = tt
pointwise P (a ∷ xs) h = (h a (inl refl), pointwise P xs (λ b m. h b (inr m)))

weakened :
    {A : Type 0} (P Q : A → Type 0) (xs : List A) → ((a : A) → P a → Q a) → All P xs → All Q xs
weakened P Q [] h p = tt
weakened P Q (a ∷ xs) h (p, ps) = (h a p, weakened P Q xs h ps)

at_item : {A : Type 0} (P : A → Type 0) (xs : List A) → All P xs → (a : A) → In a xs → P a
at_item P [] p a m = absurd m
at_item P (b ∷ xs) (p, ps) a (inl e) = rw (← e) p
at_item P (b ∷ xs) (p, ps) a (inr m) = at_item P xs ps a m

decided :
    (results : Dict String Json) (cs : List Contract) (bs : List Blocker)
    (legs : List (Contract × Json))
    → decide results cs bs ≡ ready legs
    → (bs ≡ []) × (joined_legs results cs ≡ legs)
decided results cs [] legs e = (refl, cc e)
decided results cs (b ∷ bs) legs e = cc e

-- A test that is passed on the way to the join.
past :
    (b : Bool) (y z : Decision) (legs : List (Contract × Json))
    → y ≢ ready legs
    → (if b then y else z) ≡ ready legs
    → (b ≡ false) × (z ≡ ready legs)
past true y z legs n e = absurd (n e)
past false y z legs n e = (refl, e)

never :
    (b : Bool) (y z : Decision) (legs : List (Contract × Json))
    → y ≢ ready legs
    → z ≢ ready legs
    → (if b then y else z) ≢ ready legs
never true y z legs n m = n
never false y z legs n m = m

module _ (x : Texts) (e : Execution) (a : Ask) (supplied : List Json) where
  -- The request may be joined at all.
  unfoldable pub IsJoinable : Type 0
  unfolding is_registered normalize_marketplace
  IsJoinable =
      (e.state ≢ "CLARIFICATION_REQUIRED")
      × (e.can_dispatch ≡ true)
      × (2 ≤ length e.contracts)
      × (is_registered (Control.target_keys x e.contracts) ≡ true)
      × (normalize_marketplace x a.scope.marketplace ≡ "wb")
      × (x.strip a.calculation_id ≡ "")
      × (x.asks_arithmetic a.question ≡ false)
      × (e.strategy ≡ "SIDE_BY_SIDE_COMPARISON")

  -- The result of a leg was supplied under its contract, and it passes the checks.
  abbrev pub IsSupplied : Contract × Json → Type 0
  IsSupplied l =
      ((item : Json) × (In item supplied
          × (supplied_id x item ≡ l.0.contract_id)
          × (get "result" item ≡ l.1)))
      × IsPassed x a.scope l.0 l.1

  -- A supplied item is an envelope of a contract.
  abbrev pub IsExpected : Json → Type 0
  IsExpected item =
      IsEnvelope x item
      × ((c : Contract) × (In c e.contracts × (c.contract_id ≡ supplied_id x item)))

  abbrev pub IsJoined : List (Contract × Json) → Type 0
  IsJoined legs =
      (map (λ l. l.0) legs ≡ e.contracts)
      × All IsSupplied legs
      × All IsExpected supplied
      × Distinct (ids_of x supplied)

  abbrev start : Indexed
  start = record { results = []; blockers = [] }

  not_before : {X : Type 0} (k : String) (v : Json) → (lookup k start.results ≡ some v) ⊎ X → X
  unfolding lookup
  not_before k v (inl z) = cc z
  not_before k v (inr z) = z

  legs-IsJoined :
      (legs : List (Contract × Json))
      → join_legs x a.scope e.contracts (index_results x supplied start) ≡ ready legs
      → IsJoined legs
  unfolding join_legs Indexes
  legs-IsJoined legs h =
      let i = index_results x supplied start in
      let (none_left, same) = decided i.results e.contracts _ legs h in
      let (e2, l) = append_nil _ _ none_left in
      let (e1, u) = append_nil _ _ e2 in
      let (b, m) = append_nil _ _ e1 in
      let (c, (envelopes, distinct, kept, found, origin)) = index-Indexes x supplied start b in
      let missing = inside (contract_ids e.contracts) (result_ids i.results) _ m in
      let extra = inside (result_ids i.results) (contract_ids e.contracts) _ u in
      let (names, passed) =
        legs_are-Passed x a.scope i.results e.contracts
          (λ k n. key_of k.contract_id i.results (
            subset-In (contract_ids e.contracts) (result_ids i.results) k.contract_id missing
              (id_of k e.contracts n)))
          l in
      (
        rw (← same) names,
        rw (← same) (
            weakened _ IsSupplied (joined_legs i.results e.contracts)
              (λ k (q, p). (not_before k.0.contract_id k.1 (origin k.0.contract_id k.1 q), p))
              passed),
        pointwise IsExpected supplied (λ item n. (
          at_item (IsEnvelope x) supplied envelopes item n,
          contract_of (supplied_id x item) e.contracts (
              subset-In (result_ids i.results) (contract_ids e.contracts) (supplied_id x item) extra
                (has_key (supplied_id x item) (get "result" item) i.results (found item n))),
        )),
        distinct,
      )

  -- A join that is READY was asked for a registered pair of sources at an approved marketplace,
  -- without any calculation; its legs are the dispatch contracts, each with a result that was
  -- supplied under its id and passes every check; and every supplied item is the only one of its id
  -- and belongs to a contract.
  pub join_is_closed :
      (legs : List (Contract × Json))
      → control_marketplace_join x e a supplied ≡ ready legs
      → IsJoinable × IsJoined legs
  unfolding control_marketplace_join IsJoinable
  join_is_closed legs h =
      let calculation = x.strip a.calculation_id in
      let (h1, r1) = past (e.state == "CLARIFICATION_REQUIRED") _ _ legs (λ q. cc q) h in
      let (h2, r2) = past (not e.can_dispatch) _ _ legs (λ q. cc q) r1 in
      let (h3, r3) = past (ltb (length e.contracts) 2) _ _ legs (λ q. cc q) r2 in
      let (h4, r4) =
        past (not (is_registered (Control.target_keys x e.contracts))) _ _ legs (λ q. cc q) r3 in
      let (h5, r5) =
        past (not (normalize_marketplace x a.scope.marketplace == "wb")) _ _ legs (λ q. cc q) r4 in
      let (h6, r6) =
        past (not (calculation == "")) _ _ legs
          (never (x.is_calculation calculation) _ _ legs (λ q. cc q) (λ q. cc q)) r5 in
      let (h7, r7) = past (x.asks_arithmetic a.question) _ _ legs (λ q. cc q) r6 in
      let (h8, r8) = past (not (e.strategy == "SIDE_BY_SIDE_COMPARISON")) _ _ legs (λ q. cc q) r7 in
      (
        (
          ground (arith, h1, streq_iff e.state "CLARIFICATION_REQUIRED"),
          ground (arith, h2),
          ground (arith, h3),
          ground (arith, h4),
          ground (arith, h5, streq_iff (normalize_marketplace x a.scope.marketplace) "wb"),
          ground (arith, h6, streq_iff calculation ""),
          h7,
          ground (arith, h8, streq_iff e.strategy "SIDE_BY_SIDE_COMPARISON"),
        ),
        legs-IsJoined legs r8,
      )
