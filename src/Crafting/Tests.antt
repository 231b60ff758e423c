-- ===== src/Crafting/Tests.antt =====
-- Concrete runs of crafting/: sticks from two planks, and a shapeless book.
use mathlib.Core.List.{Perm}
use headless_minecraft.Base.{
  ℕ, ◌≡◌, ◌↔◌, ◌+◌, ◌⊎◌, ◌<◌, refl, true, none, some, List, [], ◌∷◌, ◌==◌, ℤ, pos, int_key, arith,
  map, length,
}
use headless_minecraft.Base.Map
use headless_minecraft.Base.Map.{Map}
use headless_minecraft.Crafting.Board.{Board}
use headless_minecraft.Crafting.Grid
use headless_minecraft.Crafting.Grid.{Cell, Grid, no_cell}
use headless_minecraft.Crafting.Match
use headless_minecraft.Crafting.Match.{
  Rules, Recipes, pattern_of, shaped_match, mirror, shapeless_match, find_match,
}
use headless_minecraft.Crafting.Match.Shapeless.{Pairs, occupied, shapeless_match_iff}
use headless_minecraft.Crafting.Craft.{Results, craft, spend, shift_craft, made, no_recipe}
use headless_minecraft.Crafting.Craft.Spending.{held, items, stacks, craft_spends}
use headless_minecraft.Crafting.Craft.Termination.{IsDone, shift_craft_ends}

-- An ingredient is an item, and a cell of that item satisfies it.
abbrev item_rules : Rules ℤ
item_rules = record { id = λ i. i; blank = pos 0; satisfies = λ c i. c.id == i }

-- A recipe is its shape, its shapeless ingredients and its result: an item, metadata and a count.
abbrev Made : Type 0
Made = List (List ℤ) × List ℤ × ℤ × ℤ × ℕ

abbrev shapes : Recipes ℤ Made
shapes = record { in_shape = λ r. r.0; ingredients = λ r. r.1 }

abbrev outcome : Results Made (ℤ × ℤ × ℕ)
outcome = record {
  result = λ r. (r.2, r.3, r.4);
  id = λ r. r.0;
  metadata = λ r. r.1;
  add_count = λ a b. (a.0, a.1, a.2 + b.2);
}

abbrev sticks : Made
sticks = ((pos 5 ∷ []) ∷ (pos 5 ∷ []) ∷ [], [], pos 280, pos 0, 4)

abbrev book : Made
book = ([], pos 339 ∷ pos 334 ∷ [], pos 340, pos 0, 1)

abbrev index : Map ℤ (List Made)
index = (pos 340, book ∷ []) ∷ (pos 280, sticks ∷ []) ∷ []

abbrev planks : ℕ → Cell
planks n = record { id = pos 5; metadata = pos 0; count = pos n }

-- Two stacks of planks in the right column of a 2 × 2 grid.
abbrev planks_right : Grid
planks_right = record {
  width = 2;
  height = 2;
  cells = no_cell ∷ planks 3 ∷ no_cell ∷ planks 2 ∷ [];
}

abbrev leather_and_paper : Grid
leather_and_paper = record {
  width = 2;
  height = 1;
  cells =
      record { id = pos 334; metadata = pos 0; count = pos 1 }
      ∷ record { id = pos 339; metadata = pos 0; count = pos 1 }
      ∷ [];
}

sticks_made :
    shift_craft item_rules shapes outcome index 6 planks_right
    ≡ made
        (pos 280, pos 0, 8)
        (record planks_right { cells = no_cell ∷ planks 1 ∷ no_cell ∷ no_cell ∷ [] })
unfolding shift_craft craft find_match Grid.trim Map.lookup
sticks_made = refl

book_made : find_match item_rules shapes index leather_and_paper ≡ some book
unfolding find_match Grid.trim Map.lookup
book_made = refl

abbrev hoe : Board ℤ
hoe = record { width = 2; height = 1; cells = pos 5 ∷ pos 280 ∷ [] }

shapeless_match_iff_example : (shapeless_match item_rules book.1 leather_and_paper ≡ true) ↔ (
    (length (occupied item_rules leather_and_paper) ≡ length book.1)
    × ((ws : List ℤ) × Perm book.1 ws
        × Pairs item_rules (occupied item_rules leather_and_paper) ws))
shapeless_match_iff_example = shapeless_match_iff item_rules book.1 leather_and_paper

craft_spends_example :
    let next = map spend planks_right.cells in
    (planks_right.width ≡ planks_right.width)
    × (planks_right.height ≡ planks_right.height)
    × (next ≡ map spend planks_right.cells)
    × (items next + stacks planks_right.cells ≡ items planks_right.cells)
    × (items next < items planks_right.cells)
unfolding craft find_match Grid.trim Map.lookup
craft_spends_example =
    craft_spends item_rules shapes outcome index planks_right
      (record planks_right { cells = map spend planks_right.cells }) (pos 280, pos 0, 4) refl

shift_craft_ends_example :
    ((craft item_rules shapes outcome index planks_right ≡ none)
      × (shift_craft item_rules shapes outcome index 6 planks_right ≡ no_recipe))
    ⊎ ((sum : ℤ × ℤ × ℕ) × (left : Grid) × (shift_craft item_rules shapes outcome index 6
            planks_right
          ≡ made sum left)
        × IsDone item_rules shapes outcome index sum left
        × (items left.cells < items planks_right.cells))
unfolding items held Grid.is_empty
shift_craft_ends_example =
    shift_craft_ends item_rules shapes outcome index 6 planks_right (omega arith)
