-- ===== src/Paginate/Page.antt =====
-- app/core/paginate.py: `_dig`, `_to_int`, the items of a response, and the fields of a request for
-- each pagination style. A dotted path is given by its parts.
use Prim.Native.String.{String}
use mcp_yandex_cloud_infra.Prelude.{
  ℕ, ◌+◌, Bool, true, false, Option, none, some, List, [], ◌∷◌, string_eq, ◌==◌, if◌then◌else◌,
}
use mcp_yandex_cloud_infra.Dict.{Dict, lookup, insert}
use mcp_yandex_cloud_infra.Json.{
  Json, null, bool, num, str, arr, obj, Fields, end, field, get, truthy, to_list,
}

-- `EndpointSpec.pagination or "none"`; a text that names no style is a single request.
pub data Style : Type 0 where
  offset cursor last_id last_id_no_limit page lastchangedate rrdid single : Style

unfoldable pub style_of : String → Style
style_of s =
    if s == "offset"
    then offset
    else if s == "cursor"
    then cursor
    else if s == "last_id"
    then last_id
    else if s == "last_id_no_limit"
    then last_id_no_limit
    else if s == "page"
    then page
    else if s == "lastchangedate"
    then lastchangedate
    else if s == "rrdid"
    then rrdid
    else single

-- `cur.get(part)` on a dict; anything else ends the walk with `None`.
unfoldable pub dig : Json → List String → Json
unfolding get
dig cur [] = cur
dig cur (part ∷ parts) = dig (get part cur) parts

-- `int(value)`, or `None` where it raises; `int_of` is `int` on a text.
unfoldable pub to_int : (String → Option ℕ) → Json → Option ℕ
to_int int_of (num n) = some n
to_int int_of (bool true) = some 1
to_int int_of (bool false) = some 0
to_int int_of (str s) = int_of s
to_int int_of _ = none

-- What `items.extend(page_items)` adds, and `page_items[-1]` where the value has an index -1.
pub record Page : Type 0 where
  pub elems : List Json
  pub last : Option Json

abbrev last_of : List Json → Option Json
last_of [] = none
last_of (x ∷ []) = some x
last_of (x ∷ y ∷ xs) = last_of (y ∷ xs)

abbrev pub list_page : List Json → Page
list_page xs = record { elems = xs; last = last_of xs }

chars : String → List Json
chars String.[] = []
chars (String.◌∷◌ c s) = str (String.◌∷◌ c String.[]) ∷ chars s

keys : Fields → List Json
keys end = []
keys (field k v fs) = str k ∷ keys fs

-- `none` is the TypeError of a value that cannot be iterated.
unfoldable pub iterate : Json → Option Page
unfolding chars keys
iterate (arr xs) = some (list_page (to_list xs))
iterate (str s) = some (list_page (chars s))
iterate (obj fs) = some (record { elems = keys fs; last = none })
iterate _ = none

abbrev own_list : Json → Json → Json
own_list null (arr xs) = arr xs
own_list found data_value = found

-- `page_items` after the fallback to a list response and `or []`.
unfoldable pub page_of : List String → Json → Option Page
unfolding dig iterate
page_of ipath value =
    let found = own_list (dig value ipath) value in
    if truthy found then iterate found else some (list_page [])

-- `loc.setdefault(k, v)`
unfoldable pub set_default : String → Json → Dict String Json → Dict String Json
unfolding lookup insert
set_default k v d = elim (lookup k d) [ none ↦ insert k v d | some w ↦ d ]

abbrev set_if : Bool → String → Json → Dict String Json → Dict String Json
set_if true k v d = insert k v d
set_if false k v d = d

abbrev rrd_cursor : String → Json → Dict String Json → Dict String Json
rrd_cursor name null d = set_default name (num 0) d
rrd_cursor name seen d = insert name seen d

-- The paging parameters that go where the request's own parameters go.
unfoldable pub located : Style → Bool → ℕ → ℕ → Json → Dict String Json → Dict String Json
unfolding set_default insert
located offset is_get limit count seen loc =
    insert "offset" (num count) (set_default "limit" (num limit) loc)
located cursor is_get limit count seen loc =
    set_if (truthy seen) "cursor" seen (set_default "limit" (num limit) loc)
located last_id is_get limit count seen loc =
    set_if (truthy seen) "last_id" seen (set_default "limit" (num limit) loc)
located last_id_no_limit is_get limit count seen loc = set_if (truthy seen) "last_id" seen loc
located rrdid is_get limit count seen loc =
    rrd_cursor (if is_get then "rrdid" else "rrdId") seen (set_default "limit" (num limit) loc)
located _ is_get limit count seen loc = loc

-- The page number, which goes into the body for either method.
unfoldable pub numbered : Style → ℕ → ℕ → Dict String Json → Dict String Json
unfolding set_default insert
numbered page limit pages body =
    insert "page" (num (pages + 1)) (set_default "page_size" (num limit) body)
numbered _ limit pages body = body
