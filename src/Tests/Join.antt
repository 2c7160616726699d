-- ===== src/Tests/Join.antt =====
-- A join of two legs.
use mcp_yandex_cloud_infra.Prelude.{
  refl, String, true, false, none, List, [], ◌∷◌, string_eq, pair_eq,
}
use mcp_yandex_cloud_infra.Json.{Json, bool, str, obj, field, end}
use mcp_yandex_cloud_infra.Join.Leg.{Texts, Contract}
use mcp_yandex_cloud_infra.Join.Control.{Execution, Ask, control_marketplace_join}
use mcp_yandex_cloud_infra.Join.Closed.{IsJoinable, IsJoined, join_is_closed}

abbrev shown : Json → String
shown (str s) = s
shown _ = "1"

abbrev texts : Texts
texts = record {
  shown = shown;
  strip = λ s. s;
  lower = λ s. s;
  asks_arithmetic = λ s. false;
  is_calculation = λ s. false;
  resolve_cabinet = λ marketplace seller. none;
}

abbrev target : String → Json
target id = obj (field "type" (str "CAPABILITY") (field "id" (str id) end))

abbrev sales : Contract
sales = record {
  contract_id = "c1";
  semantic_target = target "sale_and_return_operations";
  coverage_gate = "FULL_COVERAGE";
}

abbrev advertising : Contract
advertising = record {
  contract_id = "c2";
  semantic_target = target "advertising_performance";
  coverage_gate = "";
}

abbrev execution : Execution
execution = record {
  state = "READY";
  can_dispatch = true;
  contracts = sales ∷ advertising ∷ [];
  strategy = "SIDE_BY_SIDE_COMPARISON";
}

abbrev request : Ask
request = record {
  question = "sales and advertising";
  scope = record { marketplace = "wb"; seller = "A"; date_from = "1"; date_to = "7" };
  calculation_id = "";
}

abbrev result : String → Json
result capability = obj (
    field "ok" (bool true)
      (field "capability_id" (str capability) (field "coverage" (str "FULL_COVERAGE") end)))

abbrev item : String → Json → Json
item id r = obj (field "contract_id" (str id) (field "result" r end))

abbrev supplied : List Json
supplied =
    item "c2" (result "advertising_performance")
    ∷ item "c1" (result "sale_and_return_operations")
    ∷ []

abbrev legs : List (Contract × Json)
legs =
    (sales, result "sale_and_return_operations")
    ∷ (advertising, result "advertising_performance")
    ∷ []

join_is_closed_example :
    IsJoinable texts execution request supplied × IsJoined texts execution request supplied legs
unfolding control_marketplace_join
join_is_closed_example = join_is_closed texts execution request supplied legs refl
