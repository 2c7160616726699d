-- ===== src/Join/Control.antt =====
-- app/core/request_join_controller.py: `control_marketplace_join`, after the execution controller.
use mcp_yandex_cloud_infra.Prelude.{
  String, Bool, true, false, ◌&&◌, ◌||◌, not, Option, none, some, List, [], ◌∷◌, ◌++◌, length, ltb,
  map, string_eq, pair_eq, ◌==◌, if◌then◌else◌,
}
use mcp_yandex_cloud_infra.Dict.{Dict, lookup, insert}
use mcp_yandex_cloud_infra.Json.{Json, get}
use mcp_yandex_cloud_infra.Errors.{is_in}
use mcp_yandex_cloud_infra.Join.Leg.{
  Texts, Contract, Blocker, Scope, is_dict, text_or, normalize_marketplace, semantic_key,
  validate_leg_result,
}

-- What the execution controller returns.
pub record Execution : Type 0 where
  pub state : String
  pub can_dispatch : Bool
  pub contracts : List Contract
  pub strategy : String

pub record Ask : Type 0 where
  pub question : String
  pub scope : Scope
  pub calculation_id : String

-- A leg is a contract with its own result.
pub data Decision : Type 0 where
  ready : List (Contract × Json) → Decision
  blocked : List Blocker → Decision
  clarification : List Blocker → Decision

abbrev whole : String → List Blocker
whole kind = record { contract_id = ""; kind = kind } ∷ []

abbrev pub sales_key : String × String
sales_key = ("CAPABILITY", "sale_and_return_operations")

abbrev pub advertising_key : String × String
advertising_key = ("CAPABILITY", "advertising_performance")

-- `in` on a list of keys.
has_key : String × String → List (String × String) → Bool
has_key k [] = false
has_key k (j ∷ ks) = j == k || has_key k ks

-- Every key is one of the two.
only_keys : List (String × String) → Bool
only_keys [] = true
only_keys (k ∷ ks) = (k == sales_key || k == advertising_key) && only_keys ks

-- `_JOIN_CONTRACTS` has one entry, the set of the two keys.
unfoldable pub is_registered : List (String × String) → Bool
unfolding has_key only_keys
is_registered keys = only_keys keys && has_key sales_key keys && has_key advertising_key keys

-- The index of the supplied results, and the envelopes that are refused.
pub record Indexed : Type 0 where
  pub results : Dict String Json
  pub blockers : List Blocker

abbrev pub refused : String → Indexed → Indexed
refused kind i = record i { blockers = i.blockers ++ record { contract_id = ""; kind = kind } ∷ [] }

abbrev pub is_some : Option Json → Bool
is_some none = false
is_some (some v) = true

-- `expected_ids - supplied_ids`, and `supplied_ids - expected_ids`
abbrev pub contract_ids : List Contract → List String
contract_ids cs = map (λ c. c.contract_id) cs

abbrev pub result_ids : Dict String Json → List String
result_ids d = map (λ e. e.0) d

unfoldable pub is_subset : List String → List String → Bool
is_subset [] ids = true
is_subset (a ∷ others) ids = is_in a ids && is_subset others ids

abbrev pub if_outside : List String → List String → String → List Blocker
if_outside ids others kind = if is_subset ids others then [] else whole kind

abbrev leg : Contract → Option Json → List (Contract × Json)
leg c none = []
leg c (some result) = (c, result) ∷ []

-- No result is missing when the legs are joined.
unfoldable pub joined_legs : Dict String Json → List Contract → List (Contract × Json)
unfolding lookup
joined_legs results [] = []
joined_legs results (c ∷ cs) = leg c (lookup c.contract_id results) ++ joined_legs results cs

-- Whether there is any blocker.
abbrev pub decide : Dict String Json → List Contract → List Blocker → Decision
decide results cs [] = ready (joined_legs results cs)
decide results cs (b ∷ bs) = blocked (b ∷ bs)

module _ (x : Texts) where
  abbrev pub supplied_id : Json → String
  supplied_id item = text_or x (get "contract_id" item)

  unfoldable pub index_result : Json → Indexed → Indexed
  unfolding get lookup insert
  index_result item i =
      if not (is_dict item)
      then refused "LEG_RESULT_ENVELOPE_INVALID" i
      else if supplied_id item == ""
      then refused "LEG_RESULT_CONTRACT_ID_REQUIRED" i
      else if is_some (lookup (supplied_id item) i.results)
      then refused "DUPLICATE_LEG_RESULT" i
      else record i { results = insert (supplied_id item) (get "result" item) i.results }

  unfoldable pub index_results : List Json → Indexed → Indexed
  unfolding index_result
  index_results [] i = i
  index_results (item ∷ items) i = index_results items (index_result item i)

  abbrev checked : Scope → Contract → Option Json → List Blocker
  checked s c none = []
  checked s c (some result) = validate_leg_result x s c result

  unfoldable pub leg_blockers : Scope → Dict String Json → List Contract → List Blocker
  unfolding validate_leg_result lookup
  leg_blockers s results [] = []
  leg_blockers s results (c ∷ cs) =
      checked s c (lookup c.contract_id results) ++ leg_blockers s results cs

  pub target_keys : List Contract → List (String × String)
  unfolding semantic_key
  target_keys [] = []
  target_keys (c ∷ cs) = elim (semantic_key x c.semantic_target) [
    | none ↦ target_keys cs
    | some k ↦ k ∷ target_keys cs
  ]

  unfoldable pub join_legs : Scope → List Contract → Indexed → Decision
  unfolding is_subset leg_blockers joined_legs
  join_legs s cs i = decide i.results cs (
      i.blockers
      ++ if_outside (contract_ids cs) (result_ids i.results) "REQUIRED_LEG_RESULT_MISSING"
      ++ if_outside (result_ids i.results) (contract_ids cs) "UNEXPECTED_LEG_RESULT"
      ++ leg_blockers s i.results cs)

  unfoldable pub control_marketplace_join : Execution → Ask → List Json → Decision
  unfolding normalize_marketplace is_registered target_keys index_results join_legs
  control_marketplace_join e a supplied =
      let calculation = x.strip a.calculation_id in
      if e.state == "CLARIFICATION_REQUIRED"
      then clarification (whole "EXECUTION_CLARIFICATION_REQUIRED")
      else if not e.can_dispatch
      then blocked (whole "EXECUTION_NOT_DISPATCHABLE")
      else if ltb (length e.contracts) 2
      then blocked (whole "JOIN_NOT_REQUIRED")
      else if not (is_registered (target_keys e.contracts))
      then blocked (whole "JOIN_CONTRACT_NOT_REGISTERED")
      else if not (normalize_marketplace x a.scope.marketplace == "wb")
      then blocked (whole "JOIN_MARKETPLACE_NOT_APPROVED")
      else if not (calculation == "")
      then (if x.is_calculation calculation
          then blocked (whole "CALCULATION_EXECUTOR_NOT_IMPLEMENTED")
          else blocked (whole "CALCULATION_CONTRACT_NOT_REGISTERED"))
      else if x.asks_arithmetic a.question
      then blocked (whole "CALCULATION_CONTRACT_REQUIRED")
      else if not (e.strategy == "SIDE_BY_SIDE_COMPARISON")
      then blocked (whole "JOIN_STRATEGY_NOT_APPROVED")
      else join_legs a.scope e.contracts
          (index_results supplied (record { results = []; blockers = [] }))
