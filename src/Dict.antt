-- ===== src/Dict.antt =====
-- A Python `dict`: an association list in insertion order. A write to a key that is there keeps its
-- place; a new key goes to the end.
use mcp_yandex_cloud_infra.Prelude.{
  ◌≡◌, refl, Option, none, some, List, [], ◌∷◌, arith, Eq, ◌==◌, if◌then◌else◌,
}

abbrev pub Dict {ℓ κ} : Type ℓ → Type κ → Type (ℓ ⊔ κ)
Dict K V = List (K × V)

module _ {ℓ κ} {K : Type ℓ} {V : Type κ} ⦃e : Eq K⦄ where
  unfoldable pub lookup : K → Dict K V → Option V
  lookup k [] = none
  lookup k ((j, v) ∷ m) = if j == k then some v else lookup k m

  unfoldable pub insert : K → V → Dict K V → Dict K V
  insert k v [] = (k, v) ∷ []
  insert k v ((j, w) ∷ m) = if j == k then (j, v) ∷ m else (j, w) ∷ insert k v m

  unfoldable pub delete : K → Dict K V → Dict K V
  delete k [] = []
  delete k ((j, w) ∷ m) = let rest = delete k m in if j == k then rest else (j, w) ∷ rest

  pub lookup-insert :
      (k other : K) (v : V) (d : Dict K V)
      → lookup other (insert k v d) ≡ (if k == other then some v else lookup other d)
  unfolding lookup insert
  lookup-insert k other v [] = refl
  lookup-insert k other v ((i, w) ∷ d) =
      ground
        (arith, e.same_iff k other, e.same_iff i k, e.same_iff i other, lookup-insert k other v d)

  pub lookup-delete :
      (k other : K) (d : Dict K V)
      → lookup other (delete k d) ≡ (if k == other then none else lookup other d)
  unfolding lookup delete
  lookup-delete k other [] = ground arith
  lookup-delete k other ((i, w) ∷ d) =
      ground
        (arith, e.same_iff k other, e.same_iff i k, e.same_iff i other, lookup-delete k other d)

pub ruleset dict_laws = (lookup-insert, lookup-delete)
