-- ===== src/Tests/Requests.antt =====
-- Errors, the gate and the pages of one call.
use mcp_yandex_cloud_infra.Prelude.{
  ℕ, ◌+◌, ◌≤◌, ◌<◌, ◌≡◌, ◌≢◌, ◌↔◌, ◌⊎◌, refl, String, true, false, Option, none, some, List, [],
  ◌∷◌, drop, take, arith, string_eq, zero, suc,
}
use mcp_yandex_cloud_infra.Dict.{Dict, lookup}
use mcp_yandex_cloud_infra.Json.{
  Json, num, str, arr, obj, Items, nil, cons, field, end, get, json_eq,
}
use mcp_yandex_cloud_infra.Errors.{Envelope, make_error, classify_status}
use mcp_yandex_cloud_infra.Errors.Classes.{status_retryable}
use mcp_yandex_cloud_infra.Safety.{check_gate, infer_safety, safety_levels}
use mcp_yandex_cloud_infra.Safety.Gate.{Passes, Mutates, check_gate-Passes, infer_safety_guards}
use mcp_yandex_cloud_infra.Errors.{is_in}
use mcp_yandex_cloud_infra.Paginate.Page.{offset, last_id, page_of, dig}
use mcp_yandex_cloud_infra.Paginate.Walk.{Setup, Walk, Response, answered, by_style, fetch_all}
use mcp_yandex_cloud_infra.Paginate.Bounds.{Within, fetch_all-Within, cursor_moves}
use mcp_yandex_cloud_infra.Paginate.Offset.{Serves, Complete, loc, offset_walk-Complete}

abbrev down : Envelope
down = make_error (classify_status 503).0 "down" none none none (classify_status 503).1 none none

status_retryable_example :
    (((classify_status 503).1 ≡ true) ↔ (((503 + 0) ≡ 429) ⊎ (500 ≤ 503) × (503 < 600)))
    × (down.error_type ≡ (classify_status 503).0)
status_retryable_example = status_retryable 503 "down"

check_gate-Passes_example :
    (check_gate "write" true false none none ≡ none) ↔ Passes "write" true false
check_gate-Passes_example = check_gate-Passes "write" true false none none refl

abbrev same_text : String → String
same_text s = s

infer_safety_guards_example :
    (is_in (infer_safety same_text "PUT" (some "read")) safety_levels ≡ true)
    × ((d : String)
        → some "read" ≡ some d
        → is_in d safety_levels ≡ true
        → ¬ Mutates "PUT"
        → infer_safety same_text "PUT" (some "read") ≡ d)
    × (Mutates "PUT"
        → check_gate (infer_safety same_text "PUT" (some "read")) false false none none ≢ none)
infer_safety_guards_example = infer_safety_guards same_text "PUT" (some "read") false none none

-- A server of three rows, which sends two at a time.
abbrev rows : List Json
rows = num 1 ∷ num 2 ∷ num 3 ∷ []

abbrev items_of : List Json → Items
items_of [] = nil
items_of (x ∷ xs) = cons x (items_of xs)

abbrev offset_of : Option Json → ℕ
offset_of (some (num n)) = n
offset_of _ = 0

abbrev page_from : ℕ → Json
page_from o = arr (items_of (take 2 (drop o rows)))

abbrev call : ℕ → Dict String Json → Dict String Json → Response
call n query body = answered (page_from (offset_of (lookup "offset" query)))

abbrev three_rows : Setup
three_rows = record {
  style = offset;
  is_get = true;
  ipath = [];
  limit = 2;
  max_items = 10;
  max_pages = 10;
  int_of = λ s. none;
  call = call;
}

abbrev IsPage : ℕ → ℕ → Type 0
IsPage n o =
    (last : Option Json) × (page_of [] (page_from o)
      ≡ some (record { elems = take 2 (drop o rows); last = last }))

drop_nil : (n : ℕ) → drop {A = Json} n [] ≡ []
drop_nil zero = refl
drop_nil (suc n) = refl

pages : (n o : ℕ) → IsPage n o
unfolding page_of
pages n zero = (some (num 2), refl)
pages n (suc zero) = (some (num 3), refl)
pages n (suc (suc zero)) = (some (num 3), refl)
pages n (suc (suc (suc o))) = rw (drop_nil o) (none, refl)

pages_answer :
    (w : Walk) (o : ℕ)
    → lookup "offset" (loc three_rows w) ≡ some (num o)
    → three_rows.call w.pages w.query w.body ≡ answered (page_from o)
pages_answer w o h = rw h refl

pages-Serves : Serves three_rows rows
pages-Serves = record {
  cap = λ n. 1;
  value = λ n o. page_from o;
  answers = pages_answer;
  holds = pages;
}

offset_walk-Complete_example : Complete rows (fetch_all three_rows [] [])
offset_walk-Complete_example =
    offset_walk-Complete three_rows rows [] [] pages-Serves refl (omega arith) (omega arith)

fetch_all-Within_example : Within three_rows (fetch_all three_rows [] [])
fetch_all-Within_example = fetch_all-Within three_rows [] []

abbrev cursor_page : Json
cursor_page = obj (field "last_id" (str "b") end)

abbrev at_a : Walk
at_a = record { items = num 1 ∷ []; pages = 1; query = []; body = []; seen = str "a" }

cursor_moves_example : json_eq (str "b") (str "a") ≡ false
unfolding by_style dig get json_eq
cursor_moves_example =
    cursor_moves last_id three_rows cursor_page none at_a (record at_a { seen = str "b" }) tt refl
