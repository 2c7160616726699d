-- ===== src/Prelude/Sort.antt =====
-- Python's `sorted` with a key: stable, by a Boolean order.
use mathlib.Core.Bool.{Bool}
use mathlib.Core.Path.{◌≡◌, refl}
use mathlib.Core.Logic.{◌⊎◌, inl, inr}
use mathlib.Core.List.{List, [], ◌∷◌}
use native.Mathlib.Omega.{arith}
use mcp_yandex_cloud_infra.Prelude.Tests.{if◌then◌else◌}
use mcp_yandex_cloud_infra.Prelude.Lists.{In, length}

module _ {A : Type 0} (le : A → A → Bool) where
  unfoldable pub insert_sorted : A → List A → List A
  insert_sorted x [] = x ∷ []
  insert_sorted x (y ∷ ys) = if le x y then x ∷ y ∷ ys else y ∷ insert_sorted x ys

  unfoldable pub sort : List A → List A
  unfolding insert_sorted
  sort [] = []
  sort (x ∷ xs) = insert_sorted x (sort xs)

  In-insert_sorted : (a x : A) (xs : List A) → (x ≡ a) ⊎ In a xs → In a (insert_sorted x xs)
  unfolding insert_sorted
  In-insert_sorted a x [] m = m
  In-insert_sorted a x (y ∷ ys) (inl e) = ground (arith, In-insert_sorted a x ys)
  In-insert_sorted a x (y ∷ ys) (inr (inl e)) = ground arith
  In-insert_sorted a x (y ∷ ys) (inr (inr m)) = ground (arith, In-insert_sorted a x ys)

  pub In-sort : (a : A) (xs : List A) → In a xs → In a (sort xs)
  unfolding sort
  In-sort a (x ∷ xs) (inl e) = In-insert_sorted a x (sort xs) (inl e)
  In-sort a (x ∷ xs) (inr m) = In-insert_sorted a x (sort xs) (inr (In-sort a xs m))
  In-sort a [] m = m

  length-insert_sorted : (x : A) (xs : List A) → length (insert_sorted x xs) ≡ length (x ∷ xs)
  unfolding insert_sorted
  length-insert_sorted x [] = refl
  length-insert_sorted x (y ∷ ys) = ground (arith, length-insert_sorted x ys)

  pub length-sort : (xs : List A) → length (sort xs) ≡ length xs
  unfolding sort
  length-sort [] = refl
  length-sort (x ∷ xs) = ground (arith, length-insert_sorted x (sort xs), length-sort xs)
