-- ===== src/Crafting/Craft/Termination.antt =====
-- The loop of a shift-craft ends, and where it stops.
use headless_minecraft.Base.{
  ◌⊎◌, ℕ, zero, suc, ◌≤◌, ◌<◌, ◌≡◌, refl, true, none, some, List, ℤ, arith, Bool-cases,
  Option-cases, inl, inr,
}
use headless_minecraft.Base.Map.{Map}
use headless_minecraft.Crafting.Grid.{Grid}
use headless_minecraft.Crafting.Match.{Rules, Recipes}
use headless_minecraft.Crafting.Craft.{
  Results, craft, made, no_recipe, differs, shift_loop, shift_craft,
}
use headless_minecraft.Crafting.Craft.Spending.{items, craft_spends}

module _ {Ingredient Recipe Result : Type 0} (rules : Rules Ingredient)
    (recipes : Recipes Ingredient Recipe) (results : Results Recipe Result)
    (index : Map ℤ (List Recipe)) where
  -- Nothing more of the same result can be crafted from the grid.
  abbrev pub IsDone : Result → Grid → Type 0
  IsDone total g =
      (r : Result) (next : Grid)
      → craft rules recipes results index g ≡ some (r, next)
      → differs rules recipes results index r total ≡ true

  shift_loop_ends :
      (fuel : ℕ) (total : Result) (g : Grid)
      → items g.cells < fuel
      → (sum : Result) × (left : Grid) × (shift_loop rules recipes results index fuel total g
          ≡ made sum left)
        × IsDone sum left
        × (items left.cells ≤ items g.cells)
  unfolding shift_loop
  shift_loop_ends zero total g h = absurd (omega arith)
  shift_loop_ends (suc fuel) total g h = elim (Option-cases (craft rules recipes results index g)) [
    | inl e ↦ (total, g, rw (e, shift_loop) refl, λ r next s. cc, omega arith)
    | inr ((r, next), e) ↦
        let fewer = (craft_spends rules recipes results index g next r e).4 in
        let (sum, left, run, done, less) =
          shift_loop_ends fuel (results.add_count total r) next (omega (arith, fewer, h)) in
        elim (Bool-cases (differs rules recipes results index r total)) [
          | inl d ↦ (total, g, rw (e, shift_loop) (rw d refl), λ x y s. cc, omega arith)
          | inr d ↦ (sum, left, rw (e, shift_loop) (rw d run), done, omega (arith, fewer, less))
        ]
  ]

  -- A shift-craft with more fuel than the grid has items ends: without a recipe when the grid
  -- matches none, and else with a total and a grid that has fewer items and from which no
  -- further craft gives the same result.
  pub shift_craft_ends :
      (fuel : ℕ) (g : Grid)
      → items g.cells < fuel
      → ((craft rules recipes results index g ≡ none)
          × (shift_craft rules recipes results index fuel g ≡ no_recipe))
        ⊎ ((sum : Result) × (left : Grid) × (shift_craft rules recipes results index fuel g
              ≡ made sum left)
            × IsDone sum left
            × (items left.cells < items g.cells))
  unfolding shift_craft
  shift_craft_ends fuel g h = elim (Option-cases (craft rules recipes results index g)) [
    | inl e ↦ inl (e, rw (e, shift_craft) refl)
    | inr ((r, next), e) ↦
        let fewer = (craft_spends rules recipes results index g next r e).4 in
        let (sum, left, run, done, less) = shift_loop_ends fuel r next (omega (arith, fewer, h)) in
        inr (sum, left, rw (e, shift_craft) run, done, omega (arith, fewer, less))
  ]
