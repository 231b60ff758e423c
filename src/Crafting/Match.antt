-- ===== src/Crafting/Match.antt =====
-- crafting/match.go: shaped, mirrored and shapeless recipes against a grid. Recipes and ingredients
-- are types of minecraft-protocol/data, and whether a cell satisfies an ingredient is the version's
-- `Ingredients`: all three are parameters, with the fields that the source reads.
pub mod Shapeless
pub mod Shaped
pub mod Search
use headless_minecraft.Base.{
  ℕ, zero, suc, ◌+◌, ◌-◌, Bool, true, false, not, ◌&&◌, ◌||◌, Option, none, some, List, [], ◌∷◌,
  ◌++◌, map, ℤ, pos, int_key, int_leb, nat_beq, ltb, leb, max, length, keep, get_elem?, get_or, set,
  if◌then◌else◌, ◌==◌,
}
use headless_minecraft.Base.Map
use headless_minecraft.Base.Map.{Map}
use headless_minecraft.Base.Sort.{sort}
use headless_minecraft.Crafting.Board
use headless_minecraft.Crafting.Board.{Board}
use headless_minecraft.Crafting.Grid
use headless_minecraft.Crafting.Grid.{Cell, Grid}

-- data.Ingredient with its item id, `data.Ingredient{ID: 0}`, and `Ingredients.Satisfies`.
pub record Rules (Ingredient : Type 0) : Type 0 where
  pub id : Ingredient → ℤ
  pub blank : Ingredient
  pub satisfies : Cell → Ingredient → Bool

-- data.Recipe with its shape, rows of ingredients, and its shapeless ingredients.
pub record Recipes (Ingredient Recipe : Type 0) : Type 0 where
  pub in_shape : Recipe → List (List Ingredient)
  pub ingredients : Recipe → List Ingredient

abbrev pub empty_item : ℤ
empty_item = pos 0

module _ {Ingredient : Type 0} (rules : Rules Ingredient) where
  abbrev pub Pattern : Type 0
  Pattern = Board Ingredient

  abbrev pub at : Board Ingredient → ℕ → ℕ → Ingredient
  at = Board.at rules.blank

  abbrev pub is_blank : Ingredient → Bool
  is_blank i = rules.id i == empty_item

  unfoldable pub trim_pattern : Board Ingredient → Board Ingredient
  unfolding Board.trim
  trim_pattern p = (Board.trim rules.blank is_blank p).0

  row_width : List (List Ingredient) → ℕ
  row_width [] = 0
  row_width (row ∷ rows) = max (length row) (row_width rows)

  -- A row filled up with blanks to `n` cells.
  padded : ℕ → List Ingredient → List Ingredient
  padded zero row = []
  padded (suc n) [] = rules.blank ∷ padded n []
  padded (suc n) (i ∷ row) = i ∷ padded n row

  padded_rows : ℕ → List (List Ingredient) → List Ingredient
  unfolding padded
  padded_rows width [] = []
  padded_rows width (row ∷ rows) = padded width row ++ padded_rows width rows

  unfoldable pub pattern_of : List (List Ingredient) → Board Ingredient
  unfolding trim_pattern row_width padded_rows
  pattern_of shape = trim_pattern (record {
    width = row_width shape;
    height = length shape;
    cells = padded_rows (row_width shape) shape;
  })

  -- The cells of a row from its `n`th down to its first.
  unfoldable pub reversed_row : Board Ingredient → ℕ → ℕ → List Ingredient
  reversed_row p zero y = []
  reversed_row p (suc x) y = at p x y ∷ reversed_row p x y

  unfoldable pub reversed_rows : Board Ingredient → ℕ → ℕ → List Ingredient
  unfolding reversed_row
  reversed_rows p zero y = []
  reversed_rows p (suc n) y = reversed_row p p.width y ++ reversed_rows p n (y + 1)

  unfoldable pub mirror : Board Ingredient → Board Ingredient
  unfolding reversed_rows
  mirror p = record p { cells = reversed_rows p p.height 0 }

  unfoldable pub cell_matches : Ingredient → Cell → Bool
  unfolding Grid.is_empty
  cell_matches want cell =
      if is_blank want
      then Grid.is_empty cell
      else not (Grid.is_empty cell || not (rules.satisfies cell want))

  -- The loop over `x`, then the loop over `y`; a mismatch ends both.
  unfoldable pub row_matches : Board Ingredient → Grid → ℕ → ℕ → ℕ → Bool
  row_matches p g zero x y = true
  row_matches p g (suc n) x y =
      cell_matches (at p x y) (Grid.at g x y) && row_matches p g n (x + 1) y

  unfoldable pub rows_match : Board Ingredient → Grid → ℕ → ℕ → Bool
  unfolding row_matches
  rows_match p g zero y = true
  rows_match p g (suc n) y = row_matches p g p.width 0 y && rows_match p g n (y + 1)

  unfoldable pub shaped_match : Board Ingredient → Grid → Bool
  unfolding rows_match cell_matches
  shaped_match p trimmed =
      if not (nat_beq p.width trimmed.width) || not (nat_beq p.height trimmed.height)
      then false
      else rows_match p trimmed p.height 0

  -- The loop of `pair` over the wants, `n` of them left, for one cell: `rest` pairs the later cells.
  unfoldable pub try_each : (List Bool → Bool) → Cell → List Ingredient → List Bool → ℕ → ℕ → Bool
  try_each rest cell wants used zero w = false
  try_each rest cell wants used (suc n) w =
      let next = try_each rest cell wants used n (w + 1) in
      let here = rest (set used w true) in
      if get_or used w true || not (rules.satisfies cell (get_or wants w rules.blank))
      then next
      else if here
      then true
      else next

  -- A mark that did not lead to a pairing is taken back, so `used` is passed on as it was.
  unfoldable pub pair : List Ingredient → List Cell → List Bool → Bool
  unfolding try_each
  pair wants [] used = true
  pair wants (cell ∷ cells) used = try_each (pair wants cells) cell wants used (length wants) 0

  abbrev pub none_used : List Ingredient → List Bool
  none_used wants = map (λ w. false) wants

  unfoldable pub shapeless_match : List Ingredient → Grid → Bool
  unfolding pair keep Grid.is_empty
  shapeless_match wants trimmed =
      let occupied = keep (λ c. not (Grid.is_empty c)) trimmed.cells in
      if nat_beq (length occupied) (length wants)
      then pair wants occupied (none_used wants)
      else false

  module _ {Recipe : Type 0} (recipes : Recipes Ingredient Recipe) where
    unfoldable pub matches : Recipe → Grid → Grid → Bool
    unfolding pattern_of shaped_match mirror shapeless_match
    matches recipe g trimmed =
        if ltb 0 (length (recipes.in_shape recipe))
        then (let p = pattern_of (recipes.in_shape recipe) in
            if ltb g.width p.width || ltb g.height p.height
            then false
            else shaped_match p trimmed || shaped_match (mirror p) trimmed)
        else if ltb 0 (length (recipes.ingredients recipe))
        then shapeless_match (recipes.ingredients recipe) trimmed
        else false

    first_match : Grid → Grid → List Recipe → Option Recipe
    first_match g trimmed [] = none
    first_match g trimmed (r ∷ rs) =
        let rest = first_match g trimmed rs in if matches r g trimmed then some r else rest

    -- The recipes of the index under one id, in their order; a missing key has none.
    abbrev pub under : Map ℤ (List Recipe) → ℤ → List Recipe
    under index id = elim (Map.lookup id index) [ none ↦ [] | some rs ↦ rs ]

    walk : Grid → Grid → Map ℤ (List Recipe) → List ℤ → Option Recipe
    unfolding first_match
    walk g trimmed index [] = none
    walk g trimmed index (id ∷ ids) =
        let later = walk g trimmed index ids in
        elim (first_match g trimmed (under index id)) [ some r ↦ some r | none ↦ later ]

    -- `Match` over the registry's index.
    unfoldable pub find_match : Map ℤ (List Recipe) → Grid → Option Recipe
    unfolding walk matches sort
    find_match index g =
        let trimmed = (Grid.trim g).0 in
        if nat_beq trimmed.width 0
        then none
        else walk g trimmed index (sort int_leb (map (λ e. e.0) index))
