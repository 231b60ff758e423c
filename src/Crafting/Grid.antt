-- ===== src/Crafting/Grid.antt =====
-- crafting/grid.go: the cells of a crafting grid. Item ids, metadata and counts are Go integers that
-- the source compares and decrements.
use headless_minecraft.Base.{ℕ, Bool, ◌||◌, ℤ, pos, int_key, int_leb, ◌==◌}
use headless_minecraft.Crafting.Board
use headless_minecraft.Crafting.Board.{Board}

pub record Cell : Type 0 where
  pub id : ℤ
  pub metadata : ℤ
  pub count : ℤ

-- `Cell{}`
abbrev pub no_cell : Cell
no_cell = record { id = pos 0; metadata = pos 0; count = pos 0 }

unfoldable pub is_empty : Cell → Bool
is_empty c = c.id == pos 0 || int_leb c.count (pos 0)

abbrev pub Grid : Type 0
Grid = Board Cell

abbrev pub at : Grid → ℕ → ℕ → Cell
at = Board.at no_cell

unfoldable pub trim : Grid → Grid × ℕ × ℕ
unfolding is_empty Board.trim
trim = Board.trim no_cell is_empty
