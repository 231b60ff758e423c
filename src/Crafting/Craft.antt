-- ===== src/Crafting/Craft.antt =====
-- crafting/craft.go: a craft spends one item of every occupied cell, and a shift-craft repeats it
-- while the result stays the same. The result of a recipe is a type of minecraft-protocol/data.
pub mod Spending
pub mod Termination
use headless_minecraft.Base.{
  ℕ, zero, suc, ◌+◌, Bool, true, false, not, ◌||◌, Option, none, some, List, [], ◌∷◌, map, ℤ, pos,
  negsuc, int_key, int_leb, if◌then◌else◌, ◌==◌,
}
use headless_minecraft.Base.Map.{Map}
use headless_minecraft.Crafting.Board.{Board}
use headless_minecraft.Crafting.Grid
use headless_minecraft.Crafting.Grid.{Cell, Grid, no_cell}
use headless_minecraft.Crafting.Match.{Rules, Recipes, find_match}

-- data.RecipeResult: a recipe's result, the fields that are compared, and `total.Count += r.Count`.
pub record Results (Recipe Result : Type 0) : Type 0 where
  pub result : Recipe → Result
  pub id : Result → ℤ
  pub metadata : Result → ℤ
  pub add_count : Result → Result → Result

-- `n--`
abbrev pub decrement : ℤ → ℤ
decrement (pos zero) = negsuc 0
decrement (pos (suc n)) = pos n
decrement (negsuc n) = negsuc (suc n)

unfoldable pub spend : Cell → Cell
unfolding Grid.is_empty
spend c =
    if Grid.is_empty c
    then c
    else if int_leb (decrement c.count) (pos 0)
    then no_cell
    else record c { count = decrement c.count }

module _ {Ingredient Recipe Result : Type 0} (rules : Rules Ingredient)
    (recipes : Recipes Ingredient Recipe) (results : Results Recipe Result)
    (index : Map ℤ (List Recipe)) where
  unfoldable pub craft : Grid → Option (Result × Grid)
  unfolding spend
  craft g = elim (find_match rules recipes index g) [
    | none ↦ none
    | some r ↦ some (results.result r, record g { cells = map spend g.cells })
  ]

  -- The results of `ShiftCraft`; `unfinished` stands for a loop that its fuel did not let end.
  pub data Shifted : Type 0 where
    no_recipe : Shifted
    made : Result → Grid → Shifted
    unfinished : Shifted

  abbrev pub differs : Result → Result → Bool
  differs a b = not (results.id a == results.id b) || not (results.metadata a == results.metadata b)

  unfoldable pub shift_loop : ℕ → Result → Grid → Shifted
  shift_loop zero total remaining = unfinished
  shift_loop (suc fuel) total remaining = elim (craft remaining) [
    | none ↦ made total remaining
    | some (r, next) ↦
        let more = shift_loop fuel (results.add_count total r) next in
        if differs r total then made total remaining else more
  ]

  unfoldable pub shift_craft : ℕ → Grid → Shifted
  unfolding shift_loop
  shift_craft fuel g = elim (craft g) [
    | none ↦ no_recipe
    | some (total, remaining) ↦ shift_loop fuel total remaining
  ]
