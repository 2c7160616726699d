-- ===== src/Finance/Csv.antt =====
-- app/core/wb_finance_archive.py: `_stringify`, `parse_csv_bytes`, `encode_csv`, and what they call.
use mcp_yandex_cloud_infra.Prelude.{
  ℕ, String, Option, none, some, List, [], map, nat_eq, string_eq, ◌==◌, if◌then◌else◌,
}
use mcp_yandex_cloud_infra.Dict.{Dict, lookup}
use mcp_yandex_cloud_infra.Json.{Json, null, bool, num, str, arr, obj}

-- A provider row or a CSV row.
abbrev pub Row : Type 0
Row = Dict String Json

-- Files and the modules csv, json and hashlib. `decode` and `encode` are UTF-8 with the byte order
-- mark, `sample` the first 8192 characters, `sniff` the delimiter that `csv.Sniffer` finds, `read`
-- `csv.DictReader` with a delimiter, `write` `csv.DictWriter` in the fixed dialect, on a header and
-- the cells of each row. `show` and `int` are `str` and `int` on numbers and texts.
pub record Library : Type 1 where
  pub Bytes : Type 0
  pub nothing : Bytes
  pub size : Bytes → ℕ
  pub sha256 : Bytes → String
  pub Text : Type 0
  pub decode : Bytes → Text
  pub encode : Text → Bytes
  pub sample : Text → Text
  pub sniff : Text → Option String
  pub read : String → Text → List String × List Row
  pub write : List String → List (List String) → Text
  pub dumps : Json → String
  pub show : ℕ → String
  pub int : String → Option ℕ

abbrev pub get_or_null : Option Json → Json
get_or_null none = null
get_or_null (some v) = v

-- `row.get(name)`
abbrev pub cell : String → Row → Json
cell name row = get_or_null (lookup name row)

module _ (lib : Library) where
  open lib use {Bytes, nothing, size, decode, encode, sample, sniff, read, write, dumps, show, int}

  unfoldable pub stringify : Json → String
  stringify null = ""
  stringify (bool b) = if b then "true" else "false"
  stringify (num n) = show n
  stringify (str s) = s
  stringify (arr xs) = dumps (arr xs)
  stringify (obj fs) = dumps (obj fs)

  -- `_stringify(row.get(name))`
  abbrev pub text_of : String → Row → String
  text_of name row = stringify (cell name row)

  -- `existing or b""`
  abbrev pub or_nothing : Option Bytes → Bytes
  or_nothing none = nothing
  or_nothing (some b) = b

  abbrev delimiter_or : Option String → String
  delimiter_or none = ";"
  delimiter_or (some d) = d

  unfoldable pub parse_csv_bytes : Bytes → List String × List Row
  parse_csv_bytes bytes =
      let text = decode bytes in
      if size bytes == 0 then ([], []) else read (delimiter_or (sniff (sample text))) text

  unfoldable pub encode_csv : List String → List Row → Bytes
  unfolding stringify lookup
  encode_csv fields rows =
      encode (write fields (map (λ row. map (λ name. text_of name row) fields) rows))

  -- `int(text or 0)`; `none` is a ValueError.
  abbrev pub int_or_zero : String → Option ℕ
  int_or_zero text = if text == "" then some 0 else int text
