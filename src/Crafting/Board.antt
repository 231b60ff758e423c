-- ===== src/Crafting/Board.antt =====
-- What crafting/grid.go does on grids of cells and crafting/match.go does again on patterns of
-- ingredients: a rectangle stored by rows, cut down to the box of its cells that are not blank. The
-- source's inclusive bounds, which start at -1, are kept as ends: `end_x` is `maxX + 1`. Reading
-- outside the rectangle panics in the source and gives the zero value here; `Trim` reads inside it.
pub mod Boxes
pub mod Cells
pub mod Trim
use headless_minecraft.Base.{
  ℕ, zero, suc, ◌+◌, ◌-◌, ◌*◌, Bool, List, [], ◌∷◌, ◌++◌, min, max, nat_beq, get_or, if◌then◌else◌,
}

pub record Board (A : Type 0) : Type 0 where
  pub width : ℕ
  pub height : ℕ
  pub cells : List A

pub record Box : Type 0 where
  pub min_x : ℕ
  pub min_y : ℕ
  pub end_x : ℕ
  pub end_y : ℕ

module _ {A : Type 0} (nothing : A) where
  unfoldable pub at : Board A → ℕ → ℕ → A
  at g x y = get_or g.cells (y * g.width + x) nothing

  unfoldable pub row_cells : Board A → ℕ → ℕ → ℕ → List A
  row_cells g zero x y = []
  row_cells g (suc n) x y = at g x y ∷ row_cells g n (x + 1) y

  unfoldable pub box_cells : Board A → ℕ → ℕ → ℕ → ℕ → List A
  unfolding row_cells
  box_cells g zero w x y = []
  box_cells g (suc h) w x y = row_cells g w x y ++ box_cells g h w x (y + 1)

abbrev pub widen : Box → ℕ → ℕ → Box
widen b x y = record {
  min_x = min b.min_x x;
  min_y = min b.min_y y;
  end_x = max b.end_x (x + 1);
  end_y = max b.end_y (y + 1);
}

module _ {A : Type 0} (nothing : A) (is_blank : A → Bool) where
  -- The loop over `x` in one row, with `n` columns left.
  unfoldable pub scan_row : Board A → ℕ → ℕ → ℕ → Box → Box
  unfolding at
  scan_row g zero x y b = b
  scan_row g (suc n) x y b =
      scan_row g n (x + 1) y (if is_blank (at nothing g x y) then b else widen b x y)

  unfoldable pub scan_rows : Board A → ℕ → ℕ → Box → Box
  unfolding scan_row
  scan_rows g zero y b = b
  scan_rows g (suc n) y b = scan_rows g n (y + 1) (scan_row g g.width 0 y b)

  unfoldable pub bounds : Board A → Box
  unfolding scan_rows
  bounds g =
      scan_rows g g.height 0 (record { min_x = g.width; min_y = g.height; end_x = 0; end_y = 0 })

  cut : Board A → Box → Board A × ℕ × ℕ
  unfolding box_cells
  cut g b = if nat_beq b.end_x 0 then (record { width = 0; height = 0; cells = [] }, 0, 0) else (
    record {
      width = b.end_x - b.min_x;
      height = b.end_y - b.min_y;
      cells = box_cells nothing g (b.end_y - b.min_y) (b.end_x - b.min_x) b.min_x b.min_y;
    },
    b.min_x,
    b.min_y,
  )

  -- The box with its offset; the empty board at offset 0 where every cell is blank.
  unfoldable pub trim : Board A → Board A × ℕ × ℕ
  unfolding cut bounds
  trim g = cut g (bounds g)
