-- ===== src/Queue/State/Earliest.antt =====
-- The entry that `_next_due` of app/core/archive_queue.py reads first from the sorted set.
use mcp_yandex_cloud_infra.Prelude.{
  ℕ, ◌≤◌, ◌≡◌, refl, inl, inr, String, Bool, true, false, ◌&&◌, ◌||◌, Option, none, some, [], ◌∷◌,
  In, ltb, arith, nat_eq, ◌==◌, if◌then◌else◌,
}
use mcp_yandex_cloud_infra.Dict.{Dict}
use mcp_yandex_cloud_infra.Queue.State.{first_due, earlier}

-- An entry of the set that is not after any other.
abbrev pub IsFirst : Option (String × ℕ) → Dict String ℕ → Type 0
IsFirst none es = (f : String × ℕ) → ¬ In f es
IsFirst (some e) es = In e es × ((f : String × ℕ) → In f es → e.1 ≤ f.1)

if_IsFirst :
    (b : Bool) (e g : String × ℕ) (es : Dict String ℕ)
    → (b ≡ true → IsFirst (some e) es)
    → (b ≡ false → IsFirst (some g) es)
    → IsFirst (some (if b then e else g)) es
if_IsFirst true e g es h k = h refl
if_IsFirst false e g es h k = k refl

module _ (text_lt : String → String → Bool) where
  earlier-IsFirst :
      (e : String × ℕ) (o : Option (String × ℕ)) (es : Dict String ℕ)
      → IsFirst o es
      → IsFirst (some (earlier text_lt e o)) (e ∷ es)
  earlier-IsFirst e none es h =
      (inl refl, λ f m. elim m [ inl q ↦ rw q (omega arith) | inr n ↦ absurd (h f n) ])
  earlier-IsFirst e (some g) es (i, low) =
      if_IsFirst (ltb e.1 g.1 || (e.1 == g.1 && text_lt e.0 g.0)) e g (e ∷ es)
        (λ t. (
          inl refl,
          λ f m. elim m [ inl q ↦ rw q (omega arith) | inr n ↦ ground (arith, t, low f n) ],
        ))
        (λ t. (inr i, λ f m. elim m [ inl q ↦ rw (← q) (ground (arith, t)) | inr n ↦ low f n ]))

  pub first_due-IsFirst : (es : Dict String ℕ) → IsFirst (first_due text_lt es) es
  unfolding first_due
  first_due-IsFirst [] = λ f m. m
  first_due-IsFirst (e ∷ es) = earlier-IsFirst e (first_due text_lt es) es (first_due-IsFirst es)
