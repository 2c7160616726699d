-- ===== src/Join/Leg.antt =====
-- app/core/request_join_controller.py: `_normalize_marketplace`, `_semantic_key`,
-- `_result_semantic_key`, `_coverage_status`, `_result_scope` and `_validate_leg_result`.
use mcp_yandex_cloud_infra.Prelude.{
  String, Bool, true, false, ◌&&◌, ◌||◌, not, Option, none, some, List, [], ◌∷◌, ◌++◌, string_eq,
  pair_eq, ◌==◌, if◌then◌else◌,
}
use mcp_yandex_cloud_infra.Json.{Json, bool, obj, get, truthy, or_json}
use mcp_yandex_cloud_infra.Errors.{is_in}

-- `str` on JSON values, the text methods, the regular expression of arithmetic words, the registered
-- calculations, and the cabinet that app/core/business_registry.py finds for a seller.
pub record Texts : Type 0 where
  pub shown : Json → String
  pub strip : String → String
  pub lower : String → String
  pub asks_arithmetic : String → Bool
  pub is_calculation : String → Bool
  pub resolve_cabinet : String → String → Option String

-- A dispatch contract of the execution controller.
pub record Contract : Type 0 where
  pub contract_id : String
  pub semantic_target : Json
  pub coverage_gate : String

-- A reason not to join; its details are left out.
pub record Blocker : Type 0 where
  pub contract_id : String
  pub kind : String

-- The request of the user.
pub record Scope : Type 0 where
  pub marketplace : String
  pub seller : String
  pub date_from : String
  pub date_to : String

abbrev pub is_dict : Json → Bool
is_dict (obj fs) = true
is_dict _ = false

abbrev pub is_true : Json → Bool
is_true (bool b) = b
is_true _ = false

abbrev pub blocker : Contract → String → Blocker
blocker c kind = record { contract_id = c.contract_id; kind = kind }

abbrev pub when : Bool → Blocker → List Blocker
when b x = if b then x ∷ [] else []

abbrev pub target_differs : Option (String × String) → Option (String × String) → Bool
target_differs none actual = false
target_differs (some e) none = true
target_differs (some e) (some a) = not (a == e)

-- A field of the result that is there and is another one.
abbrev pub period_differs : String → String → Bool
period_differs actual expected =
    not (actual == "") && not (expected == "") && not (actual == expected)

module _ (x : Texts) where
  -- `str(value or "")`
  abbrev pub text_or : Json → String
  text_or v = if truthy v then x.shown v else ""

  unfoldable pub normalize_marketplace : String → String
  normalize_marketplace text =
      let t = x.lower (x.strip text) in
      if is_in t ("wb" ∷ "wildberries" ∷ "вайлдберриз" ∷ [])
      then "wb"
      else if is_in t ("ozon" ∷ "озон" ∷ [])
      then "ozon"
      else t

  abbrev or_stripped : String → Option String → String
  or_stripped seller none = x.strip seller
  or_stripped seller (some cabinet) = cabinet

  unfoldable pub canonical_seller : String → String → String
  canonical_seller marketplace seller =
      or_stripped seller (x.resolve_cabinet marketplace (x.strip seller))

  unfoldable pub semantic_key : Json → Option (String × String)
  unfolding get
  semantic_key target =
      let kind = text_or (get "type" target) in
      let id = text_or (get "id" target) in
      if not (is_dict target) || kind == "" || id == "" then none else some (kind, id)

  abbrev metric_key : Json → Option (String × String)
  metric_key result =
      if truthy (get "capability_id" result)
      then some ("CAPABILITY", x.shown (get "capability_id" result))
      else if text_or (get "metric" result) == ""
      then none
      else some ("BUSINESS_METRIC", text_or (get "metric" result))

  unfoldable pub result_semantic_key : Json → Option (String × String)
  unfolding get
  result_semantic_key result =
      let resolution = get "semantic_resolution" result in
      let kind = text_or (get "resolution_type" resolution) in
      if is_dict resolution && kind == "CAPABILITY" && truthy (get "capability_id" resolution)
      then some (kind, x.shown (get "capability_id" resolution))
      else if is_dict resolution && kind == "BUSINESS_METRIC" && truthy (get "metric_id" resolution)
      then some (kind, x.shown (get "metric_id" resolution))
      else metric_key result

  unfoldable pub coverage_status : Json → String
  unfolding get
  coverage_status result =
      let coverage = get "coverage" result in
      if is_dict coverage then text_or (get "status" coverage) else text_or coverage

  unfoldable pub result_scope : Json → Scope
  unfolding get normalize_marketplace
  result_scope result =
      let period = get "period" (get "normalized_query" result) in
      record {
        marketplace = normalize_marketplace (text_or (get "marketplace" result));
        seller = x.strip (text_or (or_json (get "cabinet" result) (get "seller" result)));
        date_from = text_or (or_json (get "date_from" result) (get "date_from" period));
        date_to = text_or (or_json (get "date_to" result) (get "date_to" period));
      }

  abbrev pub seller_differs : Scope → String → Bool
  seller_differs s actual =
      not (actual == "")
      && not (
          actual == x.strip s.seller
          || actual == canonical_seller (normalize_marketplace s.marketplace) s.seller)

  -- The checks of a mapping.
  unfoldable pub leg_checks : Scope → Contract → Json → List Blocker
  unfolding semantic_key result_semantic_key coverage_status result_scope canonical_seller
      normalize_marketplace get
  leg_checks s c result =
      let scope = result_scope result in
      when (not (is_true (get "ok" result))) (blocker c "LEG_RESULT_NOT_SUCCESSFUL")
      ++ when (target_differs (semantic_key c.semantic_target) (result_semantic_key result))
          (blocker c "SEMANTIC_TARGET_MISMATCH")
      ++ when
          (c.coverage_gate == "FULL_COVERAGE" && not (coverage_status result == "FULL_COVERAGE"))
          (blocker c "COVERAGE_GATE_NOT_PROVEN")
      ++ when
          (not (scope.marketplace == "")
            && not (scope.marketplace == normalize_marketplace s.marketplace))
          (blocker c "MARKETPLACE_SCOPE_MISMATCH")
      ++ when (seller_differs s scope.seller) (blocker c "SELLER_SCOPE_MISMATCH")
      ++ when (period_differs scope.date_from s.date_from) (blocker c "PERIOD_SCOPE_MISMATCH")
      ++ when (period_differs scope.date_to s.date_to) (blocker c "PERIOD_SCOPE_MISMATCH")

  unfoldable pub validate_leg_result : Scope → Contract → Json → List Blocker
  unfolding leg_checks
  validate_leg_result s c result =
      if is_dict result then leg_checks s c result else blocker c "LEG_RESULT_INVALID" ∷ []
