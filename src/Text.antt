-- ===== src/Text.antt =====
-- `str.startswith`, `str.endswith`, `str.split(c)[0]` and `str.strip` with a character, on native
-- texts.
use Prim.Native.Char.{Char}
use mcp_yandex_cloud_infra.Prelude.{
  ◌≡◌, ◌↔◌, refl, ap, sym, ◌∙◌, inl, inr, String, Bool, true, false, ◌||◌, Option, none, some,
  Bool-cases, arith, string_eq, ◌==◌, streq_iff, if◌then◌else◌,
}

abbrev pub single : Char → String
single c = String.◌∷◌ c String.[]

-- Concatenation, by recursion on the first text.
abbrev pub append : String → String → String
append String.[] t = t
append (String.◌∷◌ c s) t = String.◌∷◌ c (append s t)

-- The text after the prefix, if it begins with it.
unfoldable pub drop_prefix : String → String → Option String
drop_prefix String.[] text = some text
drop_prefix (String.◌∷◌ c p) String.[] = none
drop_prefix (String.◌∷◌ c p) (String.◌∷◌ d text) =
    let rest = drop_prefix p text in if single c == single d then rest else none

-- `text.endswith(suffix)`
unfoldable pub ends_with : String → String → Bool
ends_with suffix String.[] = suffix == ""
ends_with suffix (String.◌∷◌ c text) = suffix == String.◌∷◌ c text || ends_with suffix text

-- `text.split(sep)[0]`
unfoldable pub before : String → String → String
before sep String.[] = ""
before sep (String.◌∷◌ c text) =
    let rest = before sep text in if single c == sep then "" else String.◌∷◌ c rest

-- `text.lstrip(c)`
unfoldable pub strip_left : String → String → String
strip_left sep String.[] = ""
strip_left sep (String.◌∷◌ c text) =
    let rest = strip_left sep text in if single c == sep then rest else String.◌∷◌ c text

abbrev cons_unless_empty : String → Char → String → String
cons_unless_empty sep c String.[] = if single c == sep then "" else single c
cons_unless_empty sep c (String.◌∷◌ d text) = String.◌∷◌ c (String.◌∷◌ d text)

-- `text.rstrip(c)`
unfoldable pub strip_right : String → String → String
strip_right sep String.[] = ""
strip_right sep (String.◌∷◌ c text) = cons_unless_empty sep c (strip_right sep text)

-- No character of the text is `sep`.
abbrev pub IsWithout : String → String → Type 0
IsWithout sep String.[] = Unit
IsWithout sep (String.◌∷◌ c text) = (single c == sep ≡ false) × IsWithout sep text

pub before_absent : (sep text : String) → IsWithout sep text → before sep text ≡ text
unfolding before
before_absent sep String.[] h = refl
before_absent sep (String.◌∷◌ c text) (h, rest) = rw (h, before_absent sep text rest) refl

nil_or_cons : (m s : String) → append m s ≡ "" → s ≡ ""
nil_or_cons String.[] s e = e
nil_or_cons (String.◌∷◌ c m) s e = cc e

abbrev tail_of : String → String
tail_of String.[] = ""
tail_of (String.◌∷◌ c s) = s

ends_with_cons :
    (suffix text : String) (c : Char) (m : String)
    → ((n : String) → text ≡ append n suffix → ends_with suffix text ≡ true)
    → String.◌∷◌ c text ≡ append m suffix
    → (suffix == String.◌∷◌ c text || ends_with suffix text) ≡ true
ends_with_cons suffix text c String.[] rest e =
    rw ((streq_iff suffix (String.◌∷◌ c text)).1 (sym e)) refl
ends_with_cons suffix text c (String.◌∷◌ d m) rest e =
    let t = rest m (ap tail_of e) in ground (arith, t)

pub ends_with_iff :
    (suffix text : String)
    → (ends_with suffix text ≡ true) ↔ ((m : String) × (text ≡ append m suffix))
unfolding ends_with
ends_with_iff suffix String.[] = (
  (λ h. ("", sym ((streq_iff suffix "").0 h))),
  λ (m, e). (streq_iff suffix "").1 (nil_or_cons m suffix (sym e)),
)
ends_with_iff suffix (String.◌∷◌ c text) = (
  (λ h. elim (Bool-cases (suffix == String.◌∷◌ c text)) [
    | inl e ↦ ("", sym ((streq_iff suffix (String.◌∷◌ c text)).0 e))
    | inr e ↦
        let (m, q) = (ends_with_iff suffix text).0 (rw e at h) in
        (String.◌∷◌ c m, ap (λ s. String.◌∷◌ c s) q)
  ]),
  λ (m, e). ends_with_cons suffix text c m (λ n q. (ends_with_iff suffix text).1 (n, q)) e,
)

abbrev head_of : String → String
head_of String.[] = ""
head_of (String.◌∷◌ x s) = single x

pub drop_prefix_iff :
    (p text rest : String) → (drop_prefix p text ≡ some rest) ↔ (text ≡ append p rest)
unfolding drop_prefix
drop_prefix_iff String.[] text rest = ((λ h. cc h), λ e. ap some e)
drop_prefix_iff (String.◌∷◌ c p) String.[] rest = ((λ h. cc h), λ e. cc e)
drop_prefix_iff (String.◌∷◌ c p) (String.◌∷◌ d text) rest =
    elim (Bool-cases (single c == single d)) [
      | inl e ↦
          let same : single c ≡ single d = (streq_iff (single c) (single d)).0 e in
          rw e (
            (λ h.
                ap (λ s. append s text) (sym same)
                ∙ ap (λ s. String.◌∷◌ c s) ((drop_prefix_iff p text rest).0 h)),
            λ q. (drop_prefix_iff p text rest).1 (ap tail_of q),
          )
      | inr e ↦ rw e (
        (λ h. cc h),
        λ q. cc (e, (streq_iff (single c) (single d)).1 (sym (ap (λ s. head_of s) q))),
      )
    ]
