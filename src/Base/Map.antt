-- ===== src/Base/Map.antt =====
-- A Go map as an association list. `insert` is `m[k] = v`, `delete` is `delete(m, k)`, `contains` is
-- the second result of `m[k]`, and `size` is `len(m)`. An entry keeps its place when it is assigned.
use mathlib.Core.Path.{◌≡◌, refl, sym, ap, ◌∙◌}
use mathlib.Core.Bool.{Bool, true, false}
use mathlib.Core.List.{List, [], ◌∷◌}
use mathlib.Core.Option.{Option, none, some}
use Prim.Native.Nat.{ℕ, suc, ◌≤◌, ◌<◌}
use native.Mathlib.Omega.{arith}
use headless_minecraft.Base.Tests.{if◌then◌else◌, is_some, Bool-cases}
use headless_minecraft.Base.Lists.{length}
use headless_minecraft.Base.Keys.{Key, ◌==◌, ==_iff, ==_refl}
use mathlib.Core.Logic.{inl, inr}

abbrev pub Map {ℓ κ} : Type ℓ → Type κ → Type (ℓ ⊔ κ)
Map K V = List (K × V)

module _ {ℓ κ} {K : Type ℓ} {V : Type κ} where
  abbrev pub size : Map K V → ℕ
  size m = length m

  abbrev pub empty : Map K V
  empty = []

module _ {ℓ κ} {K : Type ℓ} {V : Type κ} (P : V → Type κ) where
  -- Every value that the map holds satisfies `P`.
  abbrev pub AllValues : Map K V → Type κ
  AllValues [] = Unit
  AllValues ((k, v) ∷ m) = P v × AllValues m

module _ {ℓ κ} {K : Type ℓ} {V : Type κ} ⦃key : Key K⦄ where
  unfoldable pub lookup : K → Map K V → Option V
  lookup k [] = none
  lookup k ((i, w) ∷ rest) = if i == k then some w else lookup k rest

  unfoldable pub insert : K → V → Map K V → Map K V
  insert k v [] = (k, v) ∷ []
  insert k v ((i, w) ∷ rest) =
      let later = insert k v rest in if i == k then (k, v) ∷ rest else (i, w) ∷ later

  unfoldable pub delete : K → Map K V → Map K V
  delete k [] = []
  delete k ((j, w) ∷ m) = let rest = delete k m in if j == k then rest else (j, w) ∷ rest

  abbrev pub contains : K → Map K V → Bool
  contains k m = is_some (lookup k m)

  -- The value of any key after an assignment.
  pub lookup-insert :
      (k x : K) (v : V) (entries : Map K V)
      → lookup x (insert k v entries) ≡ (if k == x then some v else lookup x entries)
  unfolding insert lookup
  lookup-insert k x v [] = refl
  lookup-insert k x v ((n, w) ∷ rest) =
      ground (arith, lookup-insert k x v rest, ==_iff n x, ==_iff n k, ==_iff k x)

  pub lookup-delete :
      (k j : K) (m : Map K V) → lookup j (delete k m) ≡ (if k == j then none else lookup j m)
  unfolding lookup delete
  lookup-delete k j [] = ground arith
  lookup-delete k j ((i, w) ∷ m) =
      ground (arith, ==_iff k j, ==_iff i k, ==_iff i j, lookup-delete k j m)

  pub lookup-insert_self : (k : K) (v : V) (m : Map K V) → lookup k (insert k v m) ≡ some v
  lookup-insert_self k v m = rw (lookup-insert k k v m, ==_refl k)

  pub lookup-insert_same :
      (k x : K) (v : V) (m : Map K V) → k ≡ x → lookup x (insert k v m) ≡ some v
  lookup-insert_same k x v m e =
      ap (λ y. lookup y (insert k v m)) (sym e) ∙ lookup-insert_self k v m

  pub lookup-insert_apart :
      (k x : K) (v : V) (m : Map K V) → (k == x) ≡ false → lookup x (insert k v m) ≡ lookup x m
  lookup-insert_apart k x v m e = rw (lookup-insert k x v m, e) refl

  pub size-insert :
      (k : K) (v : V) (m : Map K V)
      → size (insert k v m) ≡ (if contains k m then size m else suc (size m))
  unfolding lookup insert
  size-insert k v [] = refl
  size-insert k v ((i, w) ∷ m) = ground (arith, size-insert k v m)

  pub size-delete-le : (k : K) (m : Map K V) → size (delete k m) ≤ size m
  unfolding delete
  size-delete-le k [] = omega arith
  size-delete-le k ((i, w) ∷ m) = ground (arith, size-delete-le k m)

  pub size-delete-lt : (k : K) (m : Map K V) → contains k m ≡ true → size (delete k m) < size m
  unfolding lookup delete
  size-delete-lt k [] h = ground arith
  size-delete-lt k ((i, w) ∷ m) h = ground (arith, size-delete-le k m, size-delete-lt k m)

  -- Deleting a key, then assigning it, leaves the value that was assigned.
  pub lookup-insert-delete :
      (k j : K) (v : V) (m : Map K V)
      → lookup j (insert k v (delete k m)) ≡ (if k == j then some v else lookup j m)
  lookup-insert-delete k j v m =
      ground (arith, lookup-insert k j v (delete k m), lookup-delete k j m)

module _ {ℓ κ} {K : Type ℓ} {V : Type κ} ⦃key : Key K⦄ (P : V → Type κ) where
  pub AllValues-insert :
      (k : K) (v : V) (m : Map K V) → AllValues P m → P v → AllValues P (insert k v m)
  unfolding insert
  AllValues-insert k v [] h p = (p, tt)
  AllValues-insert k v ((i, w) ∷ m) h p = elim (Bool-cases (i == k)) [
    | inl hit ↦ rw hit (p, h.1)
    | inr miss ↦ rw miss (h.0, AllValues-insert k v m h.1 p)
  ]

  pub AllValues-delete : (k : K) (m : Map K V) → AllValues P m → AllValues P (delete k m)
  unfolding delete
  AllValues-delete k [] h = tt
  AllValues-delete k ((i, w) ∷ m) h = elim (Bool-cases (i == k)) [
    | inl hit ↦ rw hit (AllValues-delete k m h.1)
    | inr miss ↦ rw miss (h.0, AllValues-delete k m h.1)
  ]

  pub AllValues-lookup : (k : K) (v : V) (m : Map K V) → AllValues P m → lookup k m ≡ some v → P v
  unfolding lookup
  AllValues-lookup k v [] h q = ground arith
  AllValues-lookup k v ((i, w) ∷ m) h q = elim (Bool-cases (i == k)) [
    | inl hit ↦ ground (arith, h.0)
    | inr miss ↦ AllValues-lookup k v m h.1 (rw miss at q)
  ]
