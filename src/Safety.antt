-- ===== src/Safety.antt =====
-- app/core/safety.py: the safety level of an operation and the gate before it is sent.
pub mod Gate
use Prim.Native.String.{◌++◌ as str_append}
use mcp_yandex_cloud_infra.Prelude.{
  ℕ, String, Bool, true, false, not, ◌&&◌, ◌||◌, Option, none, some, List, [], ◌∷◌, ◌++◌, ltb,
  string_eq, ◌==◌, if◌then◌else◌,
}
use mcp_yandex_cloud_infra.Json
use mcp_yandex_cloud_infra.Json.{Json, of_list}
use mcp_yandex_cloud_infra.Errors.{Envelope, is_in, make_error}

abbrev pub safety_levels : List String
safety_levels = "read" ∷ "write" ∷ "destructive" ∷ []

-- `_VERB_DEFAULT.get(verb, "write")`
unfoldable pub verb_default : String → String
verb_default verb =
    if verb == "GET" || verb == "HEAD"
    then "read"
    else if verb == "DELETE"
    then "destructive"
    else "write"

-- `_RANK[level]`, on the three levels.
unfoldable pub rank : String → ℕ
rank level = if level == "read" then 0 else if level == "write" then 1 else 2

-- `_VERB_FLOOR.get(verb)`
unfoldable pub verb_floor : String → Option String
verb_floor verb =
    if verb == "PUT" || (verb == "PATCH" || verb == "DELETE") then some "write" else none

abbrev at_least : Option String → String → String
at_least none declared = declared
at_least (some floor) declared = if ltb (rank declared) (rank floor) then floor else declared

abbrev level_or : Option String → String → String
level_or none verb = verb_default verb
level_or (some declared) verb =
    if is_in declared safety_levels then at_least (verb_floor verb) declared else verb_default verb

-- `upper` is `str.upper`.
unfoldable pub infer_safety : (String → String) → String → Option String → String
unfolding verb_default rank verb_floor
infer_safety upper method declared = level_or declared (if method == "" then "" else upper method)

-- `operation_id or endpoint`, in an f-string.
abbrev pub named : Option String → Option String → String
named none none = "None"
named none (some endpoint) = endpoint
named (some o) none = if o == "" then "None" else o
named (some o) (some endpoint) = if o == "" then endpoint else o

abbrev texts : List String → List Json
texts [] = []
texts (s ∷ ss) = Json.str s ∷ texts ss

-- `{"required": [...], "http_call_skipped": True}`
abbrev pub skipped : List String → Json
skipped required = Json.obj (
    Json.field "required" (Json.arr (of_list (texts required)))
      (Json.field "http_call_skipped" (Json.bool true) Json.end))

abbrev pub missing : Bool → Bool → List String
missing confirm_write understood =
    (if confirm_write then [] else "confirm_write=true" ∷ [])
    ++ (if understood then [] else "i_understand_this_modifies_data=true" ∷ [])

abbrev refuse_missing : List String → String → Option String → Option String → Option Envelope
refuse_missing [] name operation_id endpoint = none
refuse_missing (m ∷ ms) name operation_id endpoint = some (
    make_error "safety_gate"
      (str_append "This is a DESTRUCTIVE operation (" (
        str_append name
          ") that deletes or irreversibly changes data. Both confirmations are required. Nothing was sent."))
      none operation_id endpoint false none (some (skipped (m ∷ ms))))

unfoldable pub check_gate : String → Bool → Bool → Option String → Option String → Option Envelope
check_gate safety confirm_write understood operation_id endpoint =
    let name = named operation_id endpoint in
    if safety == "read"
    then none
    else if safety == "write" && not confirm_write
    then some (
        make_error "safety_gate"
          (str_append "This is a WRITE operation ("
            (str_append name "). Pass confirm_write=true to proceed. Nothing was sent."))
          none operation_id endpoint false none (some (skipped ("confirm_write=true" ∷ []))))
    else if safety == "destructive"
    then refuse_missing (missing confirm_write understood) name operation_id endpoint
    else none
