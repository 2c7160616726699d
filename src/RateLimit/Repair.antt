-- ===== src/RateLimit/Repair.antt =====
-- app/core/rate_limit_repair.py: `repair_legacy_wb_global_cooldowns`, on the keys and values of a
-- Redis store. Times are milliseconds.
use mcp_yandex_cloud_infra.Prelude.{
  ℕ, ◌+◌, ◌≡◌, inl, inr, refl, ap, ◌∙◌, ◌||◌, String, Bool, true, false, ◌&&◌, Option, none, some,
  List, [], ◌∷◌, In, ◌<◌, ◌≢◌, ◌↔◌, Option-cases, ltb, arith, string_eq, ◌==◌, streq_iff,
  if◌then◌else◌, Bool-cases,
}
use mcp_yandex_cloud_infra.Text.{append}
use mcp_yandex_cloud_infra.Errors.{is_in, is_in_iff}
use mcp_yandex_cloud_infra.Dict.{Dict, lookup, delete, lookup-delete}

abbrev pub max_legit_wait : ℕ
max_legit_wait = 5000

abbrev pub wb_global_pattern : String
wb_global_pattern = "marketplace-rate:v1:wb:*:global"

-- A limiter key of the whole WB transport.
abbrev pub IsGlobal : String → Type 0
IsGlobal key = (m : String) × (key ≡ append "marketplace-rate:v1:wb:" (append m ":global"))

-- What the code relies on: in a Redis pattern `*` stands for any text, and the other characters of
-- this one for themselves.
pub record GlobLaw (glob : String → String → Bool) : Type 0 where
  pub glob_iff : (key : String) → (glob wb_global_pattern key ≡ true) ↔ IsGlobal key

-- `glob` is the match of Redis, by pattern and key; `number` is `float` of a value, in milliseconds.
module _ (glob : String → String → Bool) (number : String → Option ℕ) (now : ℕ) where
  abbrev is_later : Option ℕ → Bool
  is_later none = false
  is_later (some next_at) = ltb (now + max_legit_wait) next_at

  abbrev is_impossible : Option String → Bool
  is_impossible none = false
  is_impossible (some value) = is_later (number value)

  -- One key of the scan.
  abbrev pub repair_key : String → Dict String String × ℕ → Dict String String × ℕ
  repair_key key (store, repaired) =
      if glob wb_global_pattern key && is_impossible (lookup key store)
      then (delete key store, repaired + 1)
      else (store, repaired)

  unfoldable pub repair_keys : List String → Dict String String × ℕ → Dict String String × ℕ
  unfolding lookup delete
  repair_keys [] s = s
  repair_keys (key ∷ keys) s = repair_keys keys (repair_key key s)

  -- What is left of a key.
  abbrev left_of : String → Option String → Option String
  left_of key o = if glob wb_global_pattern key && is_impossible o then none else o

  removed :
      (key other : String) (store : Dict String String)
      → (glob wb_global_pattern key && is_impossible (lookup key store)) ≡ true
      → lookup other (delete key store)
        ≡ (if key == other then left_of other (lookup other store) else lookup other store)
  removed key other store e = elim (Bool-cases (key == other)) [
    | inl q ↦
        let same : key ≡ other = ground (arith, q, streq_iff key other) in
        rw (lookup-delete key other store, q, rw same at e) refl
    | inr q ↦ rw (lookup-delete key other store, q) refl
  ]

  stays :
      (key other : String) (store : Dict String String)
      → (glob wb_global_pattern key && is_impossible (lookup key store)) ≡ false
      → lookup other store
        ≡ (if key == other then left_of other (lookup other store) else lookup other store)
  stays key other store e = elim (Bool-cases (key == other)) [
    | inl q ↦
        let same : key ≡ other = ground (arith, q, streq_iff key other) in rw (q, rw same at e) refl
    | inr q ↦ rw q refl
  ]

  -- Twice is once.
  left_again : (key : String) (o : Option String) → left_of key (left_of key o) ≡ left_of key o
  left_again key none = ground arith
  left_again key (some v) = elim (Bool-cases (glob wb_global_pattern key && is_later (number v))) [
    | inl e ↦ rw e (ground arith)
    | inr e ↦ rw (e, e) refl
  ]

  scanned :
      (b c : Bool) (other : String) (before middle after : Option String)
      → middle ≡ (if b then left_of other before else before)
      → after ≡ (if c then left_of other middle else middle)
      → after ≡ (if b || c then left_of other before else before)
  scanned true true other before middle after e f =
      f ∙ (ap (left_of other) e ∙ left_again other before)
  scanned true false other before middle after e f = f ∙ e
  scanned false true other before middle after e f = f ∙ ap (left_of other) e
  scanned false false other before middle after e f = f ∙ e

  repair_key_lem :
      (key other : String) (s : Dict String String × ℕ)
      → lookup other (repair_key key s).0
        ≡ (if key == other then left_of other (lookup other s.0) else lookup other s.0)
  repair_key_lem key other (store, n) =
      elim (Bool-cases (glob wb_global_pattern key && is_impossible (lookup key store))) [
        | inl e ↦ rw e (removed key other store e)
        | inr e ↦ rw e (stays key other store e)
      ]

  repair_keys_lem :
      (keys : List String) (other : String) (s : Dict String String × ℕ)
      → lookup other (repair_keys keys s).0
        ≡ (if is_in other keys then left_of other (lookup other s.0) else lookup other s.0)
  unfolding repair_keys
  repair_keys_lem [] other s = refl
  repair_keys_lem (key ∷ keys) other s =
      scanned (key == other) (is_in other keys) other (lookup other s.0) _ _
        (repair_key_lem key other s) (repair_keys_lem keys other (repair_key key s))

  -- The key has a slot that is more than five seconds ahead.
  abbrev pub IsImpossible : Option String → Type 0
  IsImpossible o = (v : String) × (n : ℕ) × ((o ≡ some v) × (number v ≡ some n) × (now + 5000 < n))

  IsImpossible-iff : (o : Option String) → (is_impossible o ≡ true) ↔ IsImpossible o
  IsImpossible-iff none = ((λ h. cc h), λ (v, n, (e, f, l)). cc e)
  IsImpossible-iff (some v) = elim (Option-cases (number v)) [
    | inl q ↦ rw q ((λ h. cc h), λ (u, n, (e, f, l)). cc (q, e, f))
    | inr (k, q) ↦ rw q (
      (λ h. (v, k, (refl, q, ground (arith, h)))),
      λ (u, n, (e, f, l)). let same : k ≡ n = cc (q, e, f) in ground (arith, same, l),
    )
  ]

  left_none :
      (other : String) (o : Option String)
      → IsGlobal other
      → GlobLaw glob
      → IsImpossible o
      → left_of other o ≡ none
  left_none other o g law i =
      let a = (law.glob_iff other).1 g in let b = (IsImpossible-iff o).1 i in rw (a, b) refl

  changed_only :
      (other : String) (o : Option String)
      → GlobLaw glob
      → (left_of other o ≢ o)
      → IsGlobal other × IsImpossible o
  changed_only other o law n = elim (Bool-cases (glob wb_global_pattern other && is_impossible o)) [
    | inr e ↦ absurd (n (rw e refl))
    | inl e ↦
        ((law.glob_iff other).0 (ground (arith, e)), (IsImpossible-iff o).0 (ground (arith, e)))
  ]

  -- Under the scan, a key of the whole WB transport that is scanned and whose slot is more than five
  -- seconds ahead is deleted; and a key that changes is such a key: it was scanned, it begins with
  -- `marketplace-rate:v1:wb:` and goes on to end with `:global`, and its slot was more than five
  -- seconds ahead.
  pub repair_is_targeted :
      (keys : List String) (other : String) (s : Dict String String × ℕ)
      → GlobLaw glob
      → let before = lookup other s.0 in
        let after = lookup other (repair_keys keys s).0 in
        (In other keys → IsGlobal other → IsImpossible before → after ≡ none)
        × (after ≢ before → In other keys × (IsGlobal other × IsImpossible before))
  repair_is_targeted keys other s law =
      let e = repair_keys_lem keys other s in
      elim (Bool-cases (is_in other keys)) [
        | inl b ↦
            let q = e ∙ rw b refl in
            (
              (λ m g i. q ∙ left_none other (lookup other s.0) g law i),
              λ n. (
                (is_in_iff other keys).0 b,
                changed_only other (lookup other s.0) law (λ same. n (q ∙ same)),
              ),
            )
        | inr b ↦
            let q : lookup other (repair_keys keys s).0 ≡ lookup other s.0 = e ∙ rw b refl in
            ((λ m g i. cc ((is_in_iff other keys).1 m, b)), λ n. absurd (n q))
      ]
