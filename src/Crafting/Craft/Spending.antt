-- ===== src/Crafting/Craft/Spending.antt =====
-- How many items a craft takes from the grid.
use headless_minecraft.Base.{
  ℕ, zero, suc, ◌+◌, ◌*◌, ◌<◌, ◌≡◌, ◌≢◌, refl, sym, ap, Bool, true, some, List, [], ◌∷◌, map, ℤ,
  pos, negsuc, int_key, get_or, if◌then◌else◌, arith, Option-cases, inl, inr,
}
use headless_minecraft.Base.Map.{Map}
use headless_minecraft.Crafting.Board
use headless_minecraft.Crafting.Board.{Board, Box}
use headless_minecraft.Crafting.Grid
use headless_minecraft.Crafting.Grid.{Cell, Grid, no_cell}
use headless_minecraft.Crafting.Match.{Rules, Recipes, find_match}
use headless_minecraft.Crafting.Craft.{Results, spend, craft}

abbrev pub amount : ℤ → ℕ
amount (pos n) = n
amount (negsuc n) = 0

-- The items that a cell holds; an empty cell holds none.
unfoldable pub held : Cell → ℕ
held c = if Grid.is_empty c then 0 else amount c.count

unfoldable pub items : List Cell → ℕ
items [] = 0
items (c ∷ cs) = held c + items cs

unfoldable pub stacks : List Cell → ℕ
stacks [] = 0
stacks (c ∷ cs) = (if Grid.is_empty c then 0 else 1) + stacks cs

held-spend : (c : Cell) → held (spend c) + (if Grid.is_empty c then 0 else 1) ≡ held c
unfolding held spend Grid.is_empty
held-spend c = go c.count refl
  where
    go : (n : ℤ) → c.count ≡ n → held (spend c) + (if Grid.is_empty c then 0 else 1) ≡ held c
    go (pos zero) e = ground arith
    go (pos (suc n)) e = ground arith
    go (negsuc n) e = ground arith

items-spend : (cs : List Cell) → items (map spend cs) + stacks cs ≡ items cs
unfolding items stacks
items-spend [] = refl
items-spend (c ∷ cs) = omega (arith, held-spend c, items-spend cs)

blank_of_stacks :
    (cs : List Cell) (i : ℕ) → stacks cs ≡ 0 → Grid.is_empty (get_or cs i no_cell) ≡ true
unfolding stacks
blank_of_stacks [] i h = unfold Grid.is_empty in refl
blank_of_stacks (c ∷ cs) zero h = ground arith
blank_of_stacks (c ∷ cs) (suc i) h = blank_of_stacks cs i (ground arith)

-- A board of blank cells has an empty box.
module _ {A : Type 0} (nothing : A) (is_blank : A → Bool) (g : Board A)
    (blank : (x y : ℕ) → is_blank (Board.at nothing g x y) ≡ true) where
  scan_row_blank : (n x y : ℕ) (b : Box) → Board.scan_row nothing is_blank g n x y b ≡ b
  unfolding Board.scan_row
  scan_row_blank zero x y b = refl
  scan_row_blank (suc n) x y b = rw (blank x y) (scan_row_blank n (x + 1) y b)

  scan_rows_blank : (n y : ℕ) (b : Box) → Board.scan_rows nothing is_blank g n y b ≡ b
  unfolding Board.scan_rows
  scan_rows_blank zero y b = refl
  scan_rows_blank (suc n) y b = rw (scan_row_blank g.width 0 y b) (scan_rows_blank n (y + 1) b)

  trim_blank : (Board.trim nothing is_blank g).0.width ≡ 0
  unfolding Board.trim Board.bounds
  trim_blank = rw (scan_rows_blank g.height 0 _)

width-trim_blank : (g : Grid) → stacks g.cells ≡ 0 → (Grid.trim g).0.width ≡ 0
unfolding Grid.trim Board.at
width-trim_blank g h =
    trim_blank no_cell Grid.is_empty g (λ x y. blank_of_stacks g.cells (y * g.width + x) h)

module _ {Ingredient Recipe Result : Type 0} (rules : Rules Ingredient)
    (recipes : Recipes Ingredient Recipe) (results : Results Recipe Result)
    (index : Map ℤ (List Recipe)) where
  matched_stacks :
      (g : Grid) (r : Recipe) → find_match rules recipes index g ≡ some r → stacks g.cells ≢ 0
  unfolding find_match
  matched_stacks g r h z = ground (arith, width-trim_blank g z)

  -- A craft keeps the grid's size, takes exactly one item from each occupied cell, and takes at
  -- least one: the items left and the occupied cells make up the items before.
  pub craft_spends :
      (g next : Grid) (r : Result)
      → craft rules recipes results index g ≡ some (r, next)
      → (next.width ≡ g.width)
        × (next.height ≡ g.height)
        × (next.cells ≡ map spend g.cells)
        × (items next.cells + stacks g.cells ≡ items g.cells)
        × (items next.cells < items g.cells)
  unfolding craft
  craft_spends g next r h = elim (Option-cases (find_match rules recipes index g)) [
    | inl e ↦ cc (rw (e, craft) at h)
    | inr (x, e) ↦
        let same : record g { cells = map spend g.cells } ≡ next =
          ground (arith, rw (e, craft) at h) in
        let sum = items-spend g.cells in
        let some_stack = matched_stacks g x e in
        (
          ap (λ (b : Grid). b.width) (sym same),
          ap (λ (b : Grid). b.height) (sym same),
          ap (λ (b : Grid). b.cells) (sym same),
          rw (← ap (λ (b : Grid). b.cells) same) sum,
          rw (← ap (λ (b : Grid). b.cells) same) (omega arith),
        )
  ]
