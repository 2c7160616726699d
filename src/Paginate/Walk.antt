-- ===== src/Paginate/Walk.antt =====
-- app/core/paginate.py: the loop of `fetch_all`.
use mcp_yandex_cloud_infra.Prelude.{
  ℕ, zero, suc, ◌+◌, String, Bool, true, false, not, ◌||◌, Option, none, some, List, [], ◌∷◌, ◌++◌,
  leb, string_eq, if◌then◌else◌, length, take,
}
use mcp_yandex_cloud_infra.Dict.{Dict, insert}
use mcp_yandex_cloud_infra.Errors.{Envelope}
use mcp_yandex_cloud_infra.Json.{Json, null, bool, get, truthy, or_json, json_eq}
use mcp_yandex_cloud_infra.Paginate.Page.{
  Style, offset, cursor, last_id, last_id_no_limit, page, lastchangedate, rrdid, single, dig,
  to_int, Page, page_of, located, numbered,
}

-- The variables of the loop; `seen` is `seen_cursor`, with `null` for `None`.
pub record Walk : Type 0 where
  pub items : List Json
  pub pages : ℕ
  pub query : Dict String Json
  pub body : Dict String Json
  pub seen : Json

-- `{"ok": True, "items": ..., "pages_fetched": ..., "truncated": ...}`; `total_fetched` is the
-- length of the items.
pub record Fetched : Type 0 where
  pub items : List Json
  pub pages : ℕ
  pub truncated : Bool

pub data Outcome : Type 0 where
  fetched : Fetched → Outcome
  failed : Envelope → Outcome
  raised : Outcome
  out_of_fuel : Outcome

-- What the client returns: an error envelope, or the `data` of a success.
pub data Response : Type 0 where
  refused : Envelope → Response
  answered : Json → Response

-- The arguments of a call. `call n query body` is the answer of `client.call_spec` to the request
-- that is made after `n` others; `int_of` is `int` on a text.
pub record Setup : Type 0 where
  pub style : Style
  pub is_get : Bool
  pub ipath : List String
  pub limit : ℕ
  pub max_items : ℕ
  pub max_pages : ℕ
  pub int_of : String → Option ℕ
  pub call : ℕ → Dict String Json → Dict String Json → Response

-- The request of the next page.
unfoldable pub prepare : Setup → Walk → Walk
unfolding located numbered
prepare s w =
    if s.is_get
    then record w {
      query = located s.style true s.limit (length w.items) w.seen w.query;
      body = numbered s.style s.limit w.pages w.body;
    }
    else record w {
      body =
          numbered s.style s.limit w.pages
            (located s.style false s.limit (length w.items) w.seen w.body);
    }

-- How the loop goes on after a page that is neither empty nor the last allowed one.
pub data Next : Type 0 where
  again : Walk → Next
  finish : Next
  fault : Next

abbrev pub is_false : Json → Bool
is_false (bool false) = true
is_false _ = false

abbrev pub reached : Option ℕ → ℕ → Bool
reached none count = false
reached (some total) count = leb total count

-- `page_count and pages >= page_count`
abbrev reached_page : Option ℕ → ℕ → Bool
reached_page none pages = false
reached_page (some zero) pages = false
reached_page (some (suc n)) pages = leb (suc n) pages

-- `if not c or c == seen_cursor: return`, else `seen_cursor = c`.
abbrev pub move_to : Json → Walk → Next
move_to c w = if not (truthy c) || json_eq c w.seen then finish else again (record w { seen = c })

abbrev pub rrd_of : Json → Json
rrd_of row = elim (get "rrdId" row) [ null ↦ get "rrdid" row | v ↦ v ]

abbrev pub is_null : Json → Bool
is_null null = true
is_null _ = false

abbrev pub move_date : Json → Walk → Next
move_date date w =
    if not (truthy date) || json_eq date w.seen
    then finish
    else again (record w { seen = date; query = insert "dateFrom" date w.query })

abbrev pub move_rrd : Json → Walk → Next
move_rrd id w = if is_null id || json_eq id w.seen then finish else again (record w { seen = id })

abbrev pub on_last : Option Json → (Json → Next) → Next
on_last none f = fault
on_last (some row) f = f row

-- `_dig(data, "result.last_id") or _dig(data, "last_id")`
abbrev pub last_id_of : Json → Json
last_id_of value = or_json (dig value ("result" ∷ "last_id" ∷ [])) (dig value ("last_id" ∷ []))

unfoldable pub by_style : Style → Setup → Json → Option Json → Walk → Next
unfolding dig to_int json_eq get insert
by_style offset s value last w = again w
by_style cursor s value last w =
    if is_false (dig value ("has_next" ∷ []))
    then finish
    else if reached (to_int s.int_of (dig value ("total" ∷ []))) (length w.items)
    then finish
    else move_to (dig value ("cursor" ∷ [])) w
by_style last_id s value last w = move_to (last_id_of value) w
by_style last_id_no_limit s value last w = move_to (last_id_of value) w
by_style page s value last w =
    let found =
      or_json (dig value ("result" ∷ "page_count" ∷ [])) (dig value ("page_count" ∷ [])) in
    if reached_page (to_int s.int_of found) w.pages then finish else again w
by_style lastchangedate s value last w =
    on_last last (λ row. move_date (get "lastChangeDate" row) w)
by_style rrdid s value last w = on_last last (λ row. move_rrd (rrd_of row) w)
by_style single s value last w = finish

unfoldable pub advance : Setup → Json → Option Json → Walk → Next
unfolding by_style
advance s value last w = by_style s.style s value last w

abbrev pub done : Walk → Outcome
done w = fetched (record { items = w.items; pages = w.pages; truncated = false })

abbrev pub after_full : List Json → Next → Walk → (Walk → Outcome) → Outcome
after_full [] next w rest = done w
after_full (x ∷ xs) (again w') w rest = rest w'
after_full (x ∷ xs) finish w rest = done w
after_full (x ∷ xs) fault w rest = raised

-- The result of a page whose items are `p`, in the walk `w` that has them; `rest` is the loop.
abbrev pub after_page : Setup → Json → Page → Walk → (Walk → Outcome) → Outcome
after_page s value p w rest =
    if leb s.max_items (length w.items) || leb s.max_pages w.pages
    then fetched (record { items = take s.max_items w.items; pages = w.pages; truncated = true })
    else after_full p.elems (advance s value p.last w) w rest

abbrev pub after_items : Option Page → Setup → Json → Walk → (Walk → Outcome) → Outcome
after_items none s value w rest = raised
after_items (some p) s value w rest =
    after_page s value p (record w { items = w.items ++ p.elems; pages = w.pages + 1 }) rest

abbrev pub after_answer : Setup → Response → Walk → (Walk → Outcome) → Outcome
after_answer s (refused e) w rest = failed e
after_answer s (answered value) w rest = after_items (page_of s.ipath value) s value w rest

-- `while True`, on fuel: a round for each page.
unfoldable pub walk : Setup → ℕ → Walk → Outcome
unfolding prepare advance page_of
walk s zero w = out_of_fuel
walk s (suc fuel) w =
    let w' = prepare s w in
    after_answer s (s.call w'.pages w'.query w'.body) w' (λ v. walk s fuel v)

unfoldable pub fetch_all : Setup → Dict String Json → Dict String Json → Outcome
unfolding walk
fetch_all s base_query base_body =
    walk s (s.max_pages + 1)
      (record { items = []; pages = 0; query = base_query; body = base_body; seen = null })
