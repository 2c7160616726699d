-- ===== src/Paginate/Bounds.antt =====
-- The end and the limits of the walker of app/core/paginate.py.
use mcp_yandex_cloud_infra.Prelude.{
  ℕ, zero, suc, ◌+◌, ◌≤◌, ◌<◌, ◌≡◌, refl, inl, inr, max, Bool, true, false, ◌||◌, Option, none,
  some, List, [], ◌∷◌, ◌++◌, arith, leb, length, length-take, Bool-cases, if◌then◌else◌, String,
}
use mcp_yandex_cloud_infra.Dict.{Dict}
use mcp_yandex_cloud_infra.Json.{Json, json_eq, get}
use mcp_yandex_cloud_infra.Paginate.Page.{
  Style, offset, cursor, last_id, last_id_no_limit, page, lastchangedate, rrdid, single, Page,
  page_of, dig, to_int,
}
use mcp_yandex_cloud_infra.Paginate.Walk.{
  Walk, Outcome, fetched, failed, raised, out_of_fuel, Setup, Response, refused, answered, prepare,
  Next, is_false, reached, last_id_of, rrd_of, move_to, move_date, move_rrd, again, finish, fault,
  by_style, advance, after_full, after_page, after_items, after_answer, walk, fetch_all,
}

-- The loop leaves the items and the page count to the next round.
by_style-keeps :
    (y : Style) (s : Setup) (value : Json) (last : Option Json) (w w' : Walk)
    → by_style y s value last w ≡ again w'
    → (w'.items ≡ w.items) × (w'.pages ≡ w.pages)
unfolding by_style
by_style-keeps offset s value last w w' h = ground arith
by_style-keeps single s value last w w' h = cc
by_style-keeps lastchangedate s value none w w' h = cc
by_style-keeps rrdid s value none w w' h = cc
by_style-keeps y s value last w w' h = ground arith

-- A result keeps to the limits; one that is not truncated has stayed below both.
abbrev pub Within : Setup → Outcome → Type 0
Within s (fetched r) =
    (length r.items ≤ s.max_items)
    × (r.pages ≤ max 1 s.max_pages)
    × (r.truncated ≡ false → (length r.items < s.max_items) × (r.pages < s.max_pages))
Within s (failed e) = Unit
Within s raised = Unit
Within s out_of_fuel = ⊥

pub prepare-keeps :
    (s : Setup) (w : Walk) → ((prepare s w).items ≡ w.items) × ((prepare s w).pages ≡ w.pages)
unfolding prepare
prepare-keeps s w = ground arith

after_full-Within :
    (s : Setup) (xs : List Json) (next : Next) (w : Walk) (rest : Walk → Outcome)
    → length w.items < s.max_items
    → w.pages < s.max_pages
    → ((w' : Walk) → next ≡ again w' → Within s (rest w'))
    → Within s (after_full xs next w rest)
after_full-Within s [] next w rest few early ok =
    (omega (arith, few), omega (arith, early), λ _. (few, early))
after_full-Within s (x ∷ xs) (again w') w rest few early ok = ok w' refl
after_full-Within s (x ∷ xs) finish w rest few early ok =
    (omega (arith, few), omega (arith, early), λ _. (few, early))
after_full-Within s (x ∷ xs) fault w rest few early ok = tt

after_page-Within :
    (s : Setup) (value : Json) (p : Page) (w : Walk) (rest : Walk → Outcome)
    → w.pages ≤ max 1 s.max_pages
    → ((w' : Walk) → w'.pages ≡ w.pages → w'.pages < s.max_pages → Within s (rest w'))
    → Within s (after_page s value p w rest)
after_page-Within s value p w rest early ok =
    elim (Bool-cases (leb s.max_items (length w.items) || leb s.max_pages w.pages)) [
      | inl full ↦ rw full (omega (arith, length-take s.max_items w.items), early, λ h. cc h)
      | inr room ↦ rw room (
          after_full-Within s p.elems (advance s value p.last w) w rest (ground arith)
            (ground arith)
            (unfold advance in
              λ w' e.
                let kept = by_style-keeps s.style s value p.last w w' e in
                ok w' kept.1 (ground (arith, kept.1))))
    ]

after_items-Within :
    (s : Setup) (o : Option Page) (value : Json) (w : Walk) (rest : Walk → Outcome)
    → w.pages < max 1 s.max_pages
    → ((w' : Walk) → w'.pages ≡ w.pages + 1 → w'.pages < s.max_pages → Within s (rest w'))
    → Within s (after_items o s value w rest)
after_items-Within s none value w rest early ok = tt
after_items-Within s (some p) value w rest early ok =
    after_page-Within s value p (record w { items = w.items ++ p.elems; pages = w.pages + 1 }) rest
      (omega arith) ok

after_answer-Within :
    (s : Setup) (r : Response) (w : Walk) (rest : Walk → Outcome)
    → w.pages < max 1 s.max_pages
    → ((w' : Walk) → w'.pages ≡ w.pages + 1 → w'.pages < s.max_pages → Within s (rest w'))
    → Within s (after_answer s r w rest)
after_answer-Within s (refused e) w rest early ok = tt
after_answer-Within s (answered value) w rest early ok =
    after_items-Within s (page_of s.ipath value) value w rest early ok

walk-Within :
    (s : Setup) (fuel : ℕ) (w : Walk)
    → w.pages < max 1 s.max_pages
    → s.max_pages < fuel + w.pages
    → Within s (walk s fuel w)
unfolding walk
walk-Within s zero w early enough = omega arith
walk-Within s (suc fuel) w early enough =
    let w' = prepare s w in
    let same = (prepare-keeps s w).1 in
    after_answer-Within s (s.call w'.pages w'.query w'.body) w' (λ v. walk s fuel v)
      (omega (arith, same, early))
      (λ v e r. walk-Within s fuel v (omega (arith, r)) (omega (arith, e, same, enough)))

-- The walk ends with no more than `max_pages + 1` rounds of the loop. A result has at most
-- `max_items` items and `max_pages` pages (one page, if `max_pages` is 0), and a result that is not
-- marked as truncated has stayed below both limits.
pub fetch_all-Within :
    (s : Setup) (query body : Dict String Json) → Within s (fetch_all s query body)
unfolding fetch_all
fetch_all-Within s query body = walk-Within s (s.max_pages + 1) _ (omega arith) (omega arith)

-- The styles that follow a cursor of the response.
abbrev pub FollowsCursor : Style → Type 0
FollowsCursor offset = ⊥
FollowsCursor page = ⊥
FollowsCursor single = ⊥
FollowsCursor _ = Unit

not_finish : (b : Bool) (n : Next) {w : Walk} → (if b then finish else n) ≡ again w → n ≡ again w
not_finish true n h = cc
not_finish false n h = h

move_to-moves : (c : Json) (w w' : Walk) → move_to c w ≡ again w' → json_eq w'.seen w.seen ≡ false
move_to-moves c w w' h = ground arith

move_date-moves :
    (c : Json) (w w' : Walk) → move_date c w ≡ again w' → json_eq w'.seen w.seen ≡ false
move_date-moves c w w' h = ground arith

move_rrd-moves : (c : Json) (w w' : Walk) → move_rrd c w ≡ again w' → json_eq w'.seen w.seen ≡ false
move_rrd-moves c w w' h = ground arith

-- In a style that follows a cursor the loop goes on only with a cursor that differs from the last.
pub cursor_moves :
    (y : Style) (s : Setup) (value : Json) (last : Option Json) (w w' : Walk)
    → FollowsCursor y
    → by_style y s value last w ≡ again w'
    → json_eq w'.seen w.seen ≡ false
unfolding by_style
cursor_moves offset s value last w w' f h = absurd f
cursor_moves page s value last w w' f h = absurd f
cursor_moves single s value last w w' f h = absurd f
cursor_moves lastchangedate s value none w w' f h = cc
cursor_moves lastchangedate s value (some row) w w' f h =
    move_date-moves (get "lastChangeDate" row) w w' h
cursor_moves rrdid s value none w w' f h = cc
cursor_moves rrdid s value (some row) w w' f h = move_rrd-moves (rrd_of row) w w' h
cursor_moves cursor s value last w w' f h =
    let c = dig value ("cursor" ∷ []) in
    let counted = reached (to_int s.int_of (dig value ("total" ∷ []))) (length w.items) in
    let last_page = is_false (dig value ("has_next" ∷ [])) in
    let h' = not_finish last_page (if counted then finish else move_to c w) h in
    move_to-moves c w w' (not_finish counted (move_to c w) h')
cursor_moves last_id s value last w w' f h = move_to-moves (last_id_of value) w w' h
cursor_moves last_id_no_limit s value last w w' f h = move_to-moves (last_id_of value) w w' h
