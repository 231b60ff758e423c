-- ===== src/Base/Sort.antt =====
-- `slices.Sort` by its result, the sorted permutation, here by insertion, over any Boolean order; and
-- `slices.Compact` and `slices.Contains`.
use mathlib.Core.Path.{◌≡◌, refl, ap}
use mathlib.Core.Bool.{Bool, false, ◌||◌}
use mathlib.Core.List.{List, [], ◌∷◌, Perm}
use mathlib.Core.List.Perm
use headless_minecraft.Base.Tests.{if◌then◌else◌, Bool-cases}
use mathlib.Core.Logic.{inl, inr}
use native.Mathlib.Omega.{arith}
use headless_minecraft.Base.Keys.{Key, ◌==◌, ==_iff}

module _ {ℓ} {A : Type ℓ} (le : A → A → Bool) where
  unfoldable pub insert_sorted : A → List A → List A
  insert_sorted x [] = x ∷ []
  insert_sorted x (y ∷ ys) = if le x y then x ∷ y ∷ ys else y ∷ insert_sorted x ys

  unfoldable pub sort : List A → List A
  unfolding insert_sorted
  sort [] = []
  sort (x ∷ xs) = insert_sorted x (sort xs)

  insert_sorted-perm : (x : A) (xs : List A) → Perm (insert_sorted x xs) (x ∷ xs)
  unfolding insert_sorted
  insert_sorted-perm x [] = Perm.refl (x ∷ [])
  insert_sorted-perm x (y ∷ ys) = elim (Bool-cases (le x y)) [
    | inl h ↦ rw h (Perm.refl (x ∷ y ∷ ys))
    | inr h ↦ rw h (Perm.trans (Perm.cons y (insert_sorted-perm x ys)) (Perm.swap x y ys))
  ]

  pub sort-perm : (xs : List A) → Perm (sort xs) xs
  unfolding sort
  sort-perm [] = Perm.refl []
  sort-perm (x ∷ xs) = Perm.trans (insert_sorted-perm x (sort xs)) (Perm.cons x (sort-perm xs))

module _ {ℓ} {A : Type ℓ} ⦃key : Key A⦄ where
  unfoldable pub compact : List A → List A
  compact [] = []
  compact (x ∷ []) = x ∷ []
  compact (x ∷ y ∷ ys) = let rest = compact (y ∷ ys) in if x == y then rest else x ∷ rest

  unfoldable pub contains : A → List A → Bool
  contains a [] = false
  contains a (x ∷ xs) = let rest = contains a xs in a == x || rest

  contains-insert_sorted :
      (le : A → A → Bool) (a x : A) (xs : List A)
      → contains a (insert_sorted le x xs) ≡ (a == x || contains a xs)
  unfolding contains insert_sorted
  contains-insert_sorted le a x [] = refl
  contains-insert_sorted le a x (y ∷ ys) =
      ground (arith, Bool-cases (le x y), Bool-cases (a == x), contains-insert_sorted le a x ys)

  pub contains-sort :
      (le : A → A → Bool) (a : A) (xs : List A) → contains a (sort le xs) ≡ contains a xs
  unfolding contains sort
  contains-sort le a [] = refl
  contains-sort le a (x ∷ xs) =
      rw (contains-insert_sorted le a x (sort le xs), contains-sort le a xs) refl

  pub contains-compact : (a : A) (xs : List A) → contains a (compact xs) ≡ contains a xs
  unfolding contains compact
  contains-compact a [] = refl
  contains-compact a (x ∷ []) = refl
  contains-compact a (x ∷ y ∷ ys) = elim (Bool-cases (x == y)) [
    | inl h ↦
        rw (h, contains-compact a (y ∷ ys))
          (ground (arith, ap (λ z. a == z) ((==_iff x y).0 h), Bool-cases (a == y)))
    | inr h ↦ rw (h, contains-compact a (y ∷ ys)) refl
  ]
