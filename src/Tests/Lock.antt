-- ===== src/Tests/Lock.antt =====
-- A lock that one worker holds, and a repair of one key.
use mcp_yandex_cloud_infra.Prelude.{
  ℕ, ◌≡◌, ◌≢◌, ◌↔◌, ◌∙◌, ap, In, Option-cases, refl, inl, inr, String, Bool, true, false, Option,
  none, some, List, [], ◌∷◌, arith, string_eq,
}
use mcp_yandex_cloud_infra.Dict.{Dict, lookup}
use mcp_yandex_cloud_infra.Text.{append, drop_prefix, ends_with, drop_prefix_iff, ends_with_iff}
use mcp_yandex_cloud_infra.Finance.Lock.{Shared, enter, get_key, enters, waits, Reach, here, later}
use mcp_yandex_cloud_infra.Finance.Lock.Excludes.{lock_excludes}
use mcp_yandex_cloud_infra.RateLimit.Repair.{
  wb_global_pattern, IsGlobal, IsImpossible, repair_keys, repair_is_targeted,
}

abbrev free : Shared
free = record { now = 0; store = []; inside = [] }

abbrev held : Shared
held = record { now = 0; store = ("k", ("t", 900)) ∷ []; inside = ("t", 900) ∷ [] }

abbrev waiting : Shared
waiting = record held { now = 100 }

run : Reach "k" 900 free waiting
unfolding enter
run =
    later held waiting (later free held here (enters "t" free (λ m. absurd m) refl))
      (waits 100 held)

lock_excludes_example :
    (◌≡◌ {A = String × ℕ} ("t", 900) ("t", 900)) × (get_key "k" 100 waiting.store ≡ some "t")
lock_excludes_example =
    lock_excludes "k" 900 free waiting ("t", 900) ("t", 900) refl run (inl refl) (inl refl)
      (omega arith) (omega arith)

-- The match of a Redis pattern, on the one pattern of the repair.
abbrev ends_global : Option String → Bool
ends_global none = false
ends_global (some rest) = ends_with ":global" rest

abbrev glob : String → String → Bool
glob pattern key = ends_global (drop_prefix "marketplace-rate:v1:wb:" key)

abbrev head : String
head = "marketplace-rate:v1:wb:"

IsGlobal-iff : (key : String) → (glob wb_global_pattern key ≡ true) ↔ IsGlobal key
IsGlobal-iff key = elim (Option-cases (drop_prefix head key)) [
  | inl e ↦
      rw e ((λ h. cc h), λ (m, q). cc (e, (drop_prefix_iff head key (append m ":global")).1 q))
  | inr (r, e) ↦ rw e (
    (λ h.
        let (m, q) = (ends_with_iff ":global" r).0 h in
        (m, (drop_prefix_iff head key r).0 e ∙ ap (append head) q)),
    λ (m, q).
        let same : r ≡ append m ":global" =
          cc (e, (drop_prefix_iff head key (append m ":global")).1 q) in
        (ends_with_iff ":global" r).1 (m, same),
  )
]

abbrev global_key : String
global_key = "marketplace-rate:v1:wb:a:global"

abbrev store : Dict String String
store = (global_key, "9000") ∷ ("marketplace-rate:v1:wb:a:orders", "9000") ∷ []

abbrev number : String → Option ℕ
number s = some 9000

abbrev scan : List String
scan = global_key ∷ "marketplace-rate:v1:wb:a:orders" ∷ []

repair_is_targeted_example :
    (In global_key scan
      → IsGlobal global_key
      → IsImpossible glob number 1000 (lookup global_key store)
      → lookup global_key (repair_keys glob number 1000 scan (store, 0)).0 ≡ none)
    × (lookup global_key (repair_keys glob number 1000 scan (store, 0)).0 ≢ lookup global_key store
        → In global_key scan
          × (IsGlobal global_key × IsImpossible glob number 1000 (lookup global_key store)))
repair_is_targeted_example =
    repair_is_targeted glob number 1000 scan global_key (store, 0)
      (record { glob_iff = IsGlobal-iff })
