-- ===== src/Tests/Data.antt =====
-- Concrete stores and libraries.
use mcp_yandex_cloud_infra.Prelude.{
  ℕ, suc, ◌+◌, ◌≤◌, ◌≡◌, refl, String, Option, none, some, List, [], ◌∷◌, map, ltb, length, arith,
  string_eq, nat_eq, ◌==◌, if◌then◌else◌,
}
use mcp_yandex_cloud_infra.Dict.{Dict, lookup, insert, lookup-insert}
use mcp_yandex_cloud_infra.Json.{str}
use mcp_yandex_cloud_infra.RateLimit.Rules.{RateRule}
use mcp_yandex_cloud_infra.RateLimit.Sqlite.{SlotTable}
use mcp_yandex_cloud_infra.RateLimit.Redis.{RedisServer}
use mcp_yandex_cloud_infra.Finance.Csv.{Library, Row, text_of}
use mcp_yandex_cloud_infra.Finance.Registry.{registry_fields}
use mcp_yandex_cloud_infra.Finance.Registry.Commit.{CsvLaws, as_texts}
use mcp_yandex_cloud_infra.Finance.Fragments.{Dates}

abbrev pub table : SlotTable
table = record {
  Table = Dict String ℕ;
  next_at = lookup;
  upsert = insert;
  next_at-upsert = lookup-insert;
}

abbrev alive : ℕ → Option (ℕ × ℕ) → Option ℕ
alive now none = none
alive now (some (v, until)) = if ltb now until then some v else none

pub get-set_alive :
    (k j : String) (v ttl now later : ℕ) (s : Dict String (ℕ × ℕ))
    → now ≤ later
    → alive later (lookup j (insert k (v, now + ttl) s)) ≡ (
        if k == j then if ltb later (now + ttl) then some v else none else alive later (lookup j s))
get-set_alive k j v ttl now later s h = ground (arith, lookup-insert k j (v, now + ttl) s)

abbrev pub server : RedisServer
server = record {
  Store = Dict String (ℕ × ℕ);
  get = λ k now s. alive now (lookup k s);
  set_px = λ k v ttl now s. insert k (v, now + ttl) s;
  get-set_px = get-set_alive;
}

abbrev pub rule : String → ℕ → RateRule
rule key interval = record { key = key; interval = interval }

-- A file is its header and its rows of cells.
abbrev pub File : Type 0
File = List String × List (List String)

abbrev zip : List String → List String → Row
zip [] cells = []
zip (name ∷ names) [] = []
zip (name ∷ names) (c ∷ cells) = (name, str c) ∷ zip names cells

abbrev pub show : ℕ → String
show n = if n == 7 then "7" else if n == 1 then "1" else "0"

abbrev pub int : String → Option ℕ
int s = if s == "7" then some 7 else if s == "1" then some 1 else if s == "0" then some 0 else none

abbrev pub files : Library
files = record {
  Bytes = File;
  nothing = ([], []);
  size = λ b. suc (length b.1);
  sha256 = λ b. show (length b.1);
  Text = File;
  decode = λ b. b;
  encode = λ b. b;
  sample = λ t. t;
  sniff = λ t. none;
  read = λ delimiter t. (t.0, map (zip t.0) t.1);
  write = λ names rows. (names, rows);
  dumps = λ v. "";
  show = show;
  int = int;
}

zip-map :
    (names : List String) (row : Row)
    → zip names (map (λ name. text_of files name row) names) ≡ as_texts files names row
zip-map [] row = refl
zip-map (name ∷ names) row = rw (zip-map names row) refl

zip-rows :
    (rows : List Row)
    → map
        (zip registry_fields)
        (map (λ row. map (λ name. text_of files name row) registry_fields) rows)
      ≡ map (as_texts files registry_fields) rows
zip-rows [] = refl
zip-rows (row ∷ rows) = rw (zip-map registry_fields row, zip-rows rows) refl

pub files-CsvLaws : CsvLaws files
files-CsvLaws = record {
  decode-encode = λ t. refl;
  size-encode = λ t. omega arith;
  read-write = λ rows fit. rw (zip-rows rows) refl;
}

-- Every day is Monday, 8 January of year 1.
abbrev pub dates : Dates
dates = record { from_iso = λ s. some 8; iso = show; prefix10 = λ s. s; show = λ v. "1"; int = int }
