-- ===== src/Paginate/Offset.antt =====
-- `fetch_all` of app/core/paginate.py in the offset style, against a server that pages one list.
use mathlib.Core.List.{append_assoc}
use mcp_yandex_cloud_infra.Prelude.{
  ℕ, zero, suc, ◌+◌, ◌<◌, ◌≡◌, refl, sym, ap, ◌∙◌, Bool, true, false, ◌||◌, Option, some, List, [],
  ◌∷◌, ◌++◌, arith, leb, length, take, drop, drop-append, take-append-drop, length-append,
  length-drop, if◌then◌else◌, Bool-cases, inl, inr, string_eq, String,
}
use mcp_yandex_cloud_infra.Dict.{Dict, lookup, lookup-insert}
use mcp_yandex_cloud_infra.Json.{Json, num}
use mcp_yandex_cloud_infra.Paginate.Page.{offset, page_of, located, numbered}
use mcp_yandex_cloud_infra.Paginate.Bounds.{prepare-keeps}
use mcp_yandex_cloud_infra.Paginate.Walk.{
  Walk, Outcome, fetched, Setup, answered, prepare, again, by_style, advance, after_page, walk,
  fetch_all,
}

-- Where the parameters of the request go.
abbrev pub loc : Setup → Walk → Dict String Json
loc s w = if s.is_get then w.query else w.body

-- Each request is answered by a page of the rows from its offset on. The server may cap the page
-- below the limit that was asked for, differently each time, but sends a row if one is left.
pub record Serves (s : Setup) (rows : List Json) : Type 0 where
  pub cap : ℕ → ℕ
  pub value : ℕ → ℕ → Json
  pub answers :
      (w : Walk) (o : ℕ)
      → lookup "offset" (loc s w) ≡ some (num o)
      → s.call w.pages w.query w.body ≡ answered (value w.pages o)
  pub holds :
      (n o : ℕ)
      → (last : Option Json) × (page_of s.ipath (value n o)
          ≡ some (record { elems = take (suc (cap n)) (drop o rows); last = last }))

lookup-located :
    (g : Bool) (limit n : ℕ) (seen : Json) (d : Dict String Json)
    → lookup "offset" (located offset g limit n seen d) ≡ some (num n)
unfolding located
lookup-located g limit n seen d = rw lookup-insert

offset-prepare :
    (s : Setup) (w : Walk)
    → s.style ≡ offset
    → lookup "offset" (loc s (prepare s w)) ≡ some (num (length w.items))
unfolding prepare numbered
offset-prepare s w e = elim (Bool-cases s.is_get) [
  | inl g ↦ simp (g, e) (lookup-located true s.limit (length w.items) w.seen w.query)
  | inr g ↦ simp (g, e) (lookup-located false s.limit (length w.items) w.seen w.body)
]

-- The walk returns exactly the rows, not truncated.
abbrev pub Complete : List Json → Outcome → Type 0
Complete rows out =
    (p : ℕ) × (out ≡ fetched (record { items = rows; pages = p; truncated = false }))

module _ (s : Setup) (rows : List Json) (server : Serves s rows) (e : s.style ≡ offset)
    (small : length rows < s.max_items) where
  not_full :
      (xs ys : List Json) (n : ℕ)
      → xs ++ ys ≡ rows
      → n < s.max_pages
      → (leb s.max_items (length xs) || leb s.max_pages n) ≡ false
  not_full xs ys n here early = ground (arith, ap length here, length-append xs ys)

  goes_on : (value : Json) (last : Option Json) (w : Walk) → advance s value last w ≡ again w
  unfolding advance by_style
  goes_on value last w = rw e

  split_rest :
      (c : ℕ) (xs rest : List Json) → xs ++ rest ≡ rows → (xs ++ take c rest) ++ drop c rest ≡ rows
  split_rest c xs rest here =
      append_assoc xs (take c rest) (drop c rest) ∙ rw (take-append-drop c rest) here

  after_page-Complete :
      (value : Json) (last : Option Json) (c : ℕ) (w : Walk) (rest : List Json)
      (more : Walk → Outcome)
      → w.items ++ rest ≡ rows
      → w.pages + 1 < s.max_pages
      → ((w' : Walk)
          → w'.items ≡ w.items ++ take (suc c) rest
          → w'.pages ≡ w.pages + 1
          → zero < length rest
          → Complete rows (more w'))
      → Complete rows (
          after_page s value
            (record { elems = take (suc c) rest; last = last })
            (record w { items = w.items ++ take (suc c) rest; pages = w.pages + 1 })
            more)
  after_page-Complete value last c w [] more here early ok =
      rw (not_full (w.items ++ []) [] (w.pages + 1) (split_rest 0 w.items [] here) early)
        (w.pages + 1, rw here)
  after_page-Complete value last c w (x ∷ rest) more here early ok =
      let w' : Walk = record w {
        items = w.items ++ take (suc c) (x ∷ rest);
        pages = w.pages + 1;
      } in
      rw
        (
          not_full w'.items (drop c rest) (w.pages + 1) (split_rest (suc c) w.items (x ∷ rest) here)
              early,
          goes_on value last w',
        )
        (ok w' refl refl (omega arith))

  walk-Complete :
      (fuel : ℕ) (w : Walk) (rest : List Json)
      → w.items ++ rest ≡ rows
      → length rest + (w.pages + 1) < s.max_pages
      → s.max_pages < fuel + w.pages
      → Complete rows (walk s fuel w)
  unfolding walk
  walk-Complete zero w rest here early enough = absurd (omega arith)
  walk-Complete (suc fuel) w rest here early enough =
      let w' = prepare s w in
      let (items_kept, pages_kept) = prepare-keeps s w in
      let c = server.cap w'.pages in
      let here' : w'.items ++ rest ≡ rows = rw items_kept here in
      let rest_is : drop (length w.items) rows ≡ rest =
        ap (drop (length w.items)) (sym here) ∙ drop-append w.items rest in
      let (last, shown) = server.holds w'.pages (length w.items) in
      rw (server.answers w' (length w.items) (offset-prepare s w e), shown, rest_is)
        (after_page-Complete (server.value w'.pages (length w.items)) last c w' rest
          (λ v. walk s fuel v) here' (omega (arith, pages_kept, early))
          (λ v ei ep some_left.
            walk-Complete fuel v (drop (suc c) rest)
              (rw ei (split_rest (suc c) w'.items rest here'))
              (omega (arith, length-drop (suc c) rest, ep, pages_kept, early, some_left))
              (omega (arith, ep, pages_kept, enough))))

-- Against a server that pages one list by offset, a walk with room for it in `max_items` and
-- `max_pages` returns exactly the list, however small the pages, and does not mark it as truncated.
pub offset_walk-Complete :
    (s : Setup) (rows : List Json) (query body : Dict String Json)
    → Serves s rows
    → s.style ≡ offset
    → length rows < s.max_items
    → length rows + 1 < s.max_pages
    → Complete rows (fetch_all s query body)
unfolding fetch_all
offset_walk-Complete s rows query body server e small few =
    walk-Complete s rows server e small (s.max_pages + 1) _ rows refl (omega arith) (omega arith)
