-- ===== src/Base/Lists.antt =====
-- Lists measured and indexed by native numbers, and predicates over a whole list.
use Prim.Native.Nat.{ℕ, zero, suc, ◌+◌, ◌-◌, ◌≤◌, min}
use mathlib.Core.Path.{◌≡◌, refl, ap}
use mathlib.Core.Bool.{Bool, true, false}
use mathlib.Core.List.{List, [], ◌∷◌, ◌++◌}
use mathlib.Core.Option.{Option, none, some}
use native.Mathlib.Omega.{arith}
use headless_minecraft.Base.Tests.{if◌then◌else◌}

module _ {ℓ} {A : Type ℓ} where
  abbrev pub is_empty : List A → Bool
  is_empty [] = true
  is_empty (x ∷ xs) = false

  abbrev pub length : List A → ℕ
  length [] = 0
  length (x ∷ xs) = suc (length xs)

  abbrev pub get_elem? : List A → ℕ → Option A
  get_elem? [] i = none
  get_elem? (x ∷ xs) zero = some x
  get_elem? (x ∷ xs) (suc i) = get_elem? xs i

  abbrev pub get_or : List A → ℕ → A → A
  get_or [] i d = d
  get_or (x ∷ xs) zero d = x
  get_or (x ∷ xs) (suc i) d = get_or xs i d

  -- A write out of bounds changes nothing.
  abbrev pub set : List A → ℕ → A → List A
  set [] i v = []
  set (x ∷ xs) zero v = v ∷ xs
  set (x ∷ xs) (suc i) v = x ∷ set xs i v

  abbrev pub take : ℕ → List A → List A
  take zero xs = []
  take (suc n) [] = []
  take (suc n) (x ∷ xs) = x ∷ take n xs

  abbrev pub drop : ℕ → List A → List A
  drop zero xs = xs
  drop (suc n) [] = []
  drop (suc n) (x ∷ xs) = drop n xs

  -- The elements that pass a Boolean test, in order: the filter that the source writes in place.
  unfoldable pub keep : (A → Bool) → List A → List A
  keep p [] = []
  keep p (x ∷ xs) = let rest = keep p xs in if p x then x ∷ rest else rest

  pub length-append : (xs ys : List A) → length (xs ++ ys) ≡ length xs + length ys
  length-append [] ys = omega arith
  length-append (x ∷ xs) ys = omega (arith, length-append xs ys)

  pub length-keep-le : (p : A → Bool) (xs : List A) → length (keep p xs) ≤ length xs
  unfolding keep
  length-keep-le p [] = omega arith
  length-keep-le p (x ∷ xs) = ground (arith, length-keep-le p xs)

  pub length-take : (n : ℕ) (xs : List A) → length (take n xs) ≡ min n (length xs)
  length-take zero xs = omega arith
  length-take (suc n) [] = omega arith
  length-take (suc n) (x ∷ xs) = omega (arith, length-take n xs)

  pub length-drop : (n : ℕ) (xs : List A) → length (drop n xs) ≡ length xs - n
  length-drop zero xs = omega arith
  length-drop (suc n) [] = omega arith
  length-drop (suc n) (x ∷ xs) = omega (arith, length-drop n xs)

  pub length-set : (xs : List A) (i : ℕ) (v : A) → length (set xs i v) ≡ length xs
  length-set [] i v = refl
  length-set (x ∷ xs) zero v = refl
  length-set (x ∷ xs) (suc i) v = ap suc (length-set xs i v)

  pub get_elem?-drop_nil : (xs : List A) (i : ℕ) → drop i xs ≡ [] → get_elem? xs i ≡ none
  get_elem?-drop_nil [] i h = refl
  get_elem?-drop_nil (x ∷ xs) zero h = ground (arith, h)
  get_elem?-drop_nil (x ∷ xs) (suc i) h = get_elem?-drop_nil xs i h

  module _ (v : A) where
    pub get_elem?-drop :
        (xs : List A) (i : ℕ) (rest : List A) → drop i xs ≡ v ∷ rest → get_elem? xs i ≡ some v
    get_elem?-drop [] zero rest h = ground (arith, h)
    get_elem?-drop [] (suc i) rest h = ground (arith, h)
    get_elem?-drop (x ∷ xs) zero rest h = ground (arith, h)
    get_elem?-drop (x ∷ xs) (suc i) rest h = get_elem?-drop xs i rest h

    pub drop-set :
        (xs : List A) (i : ℕ) (rest : List A) (w : A)
        → drop i xs ≡ v ∷ rest
        → drop i (set xs i w) ≡ w ∷ rest
    drop-set [] zero rest w h = ground (arith, h)
    drop-set [] (suc i) rest w h = ground (arith, h)
    drop-set (x ∷ xs) zero rest w h = ground (arith, h)
    drop-set (x ∷ xs) (suc i) rest w h = drop-set xs i rest w h

    pub drop-suc_of :
        (xs : List A) (i : ℕ) (rest : List A) → drop i xs ≡ v ∷ rest → drop (suc i) xs ≡ rest
    drop-suc_of [] zero rest h = ground (arith, h)
    drop-suc_of [] (suc i) rest h = ground (arith, h)
    drop-suc_of (x ∷ xs) zero rest h = ground (arith, h)
    drop-suc_of (x ∷ xs) (suc i) rest h = drop-suc_of xs i rest h

    pub length-drop_of :
        (xs : List A) (i : ℕ) (rest : List A)
        → drop i xs ≡ v ∷ rest
        → length xs ≡ suc i + length rest
    length-drop_of [] zero rest h = ground (arith, h)
    length-drop_of [] (suc i) rest h = ground (arith, h)
    length-drop_of (x ∷ xs) zero rest h = ground (arith, h)
    length-drop_of (x ∷ xs) (suc i) rest h = omega (arith, length-drop_of xs i rest h)

  pub take_all : (xs : List A) → take (length xs) xs ≡ xs
  take_all [] = refl
  take_all (x ∷ xs) = ap (◌∷◌ x) (take_all xs)

  pub take-append_length : (xs ys : List A) → take (length xs) (xs ++ ys) ≡ xs
  take-append_length [] ys = refl
  take-append_length (x ∷ xs) ys = ap (◌∷◌ x) (take-append_length xs ys)

module _ {ℓ κ} {A : Type ℓ} (P : A → Type κ) where
  abbrev pub All : List A → Type κ
  All [] = Unit
  All (x ∷ xs) = P x × All xs

module _ {ℓ κ} {A : Type ℓ} (P : A → Type κ) where
  pub All-append : (xs ys : List A) → All P xs → All P ys → All P (xs ++ ys)
  All-append [] ys hx hy = hy
  All-append (x ∷ xs) ys hx hy = (hx.0, All-append xs ys hx.1 hy)
