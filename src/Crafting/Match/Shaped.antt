-- ===== src/Crafting/Match/Shaped.antt =====
-- Shaped recipes: what the double loop decides, and what mirroring does to a pattern.
use headless_minecraft.Base.{
  ℕ, zero, suc, ◌+◌, ◌-◌, ◌*◌, ◌≤◌, ◌<◌, ◌≡◌, refl, sym, ◌∙◌, ap, ◌↔◌, true, length, get_or, arith,
  dec_lt,
}
use headless_minecraft.Crafting.Board
use headless_minecraft.Crafting.Board.{Board}
use headless_minecraft.Crafting.Board.Cells.{get_or-append_left, get_or-append_right}
use headless_minecraft.Crafting.Grid
use headless_minecraft.Crafting.Grid.{Grid}
use headless_minecraft.Crafting.Match.{
  Rules, at, cell_matches, row_matches, rows_match, shaped_match, reversed_row, reversed_rows,
  mirror,
}

module _ {Ingredient : Type 0} (rules : Rules Ingredient) where
  -- Every cell of the pattern's rectangle matches the grid's.
  abbrev pub Fits : Board Ingredient → Grid → Type 0
  Fits p g =
      (x y : ℕ)
      → x < p.width
      → y < p.height
      → cell_matches rules (at rules p x y) (Grid.at g x y) ≡ true

  row_matches_sound :
      (p : Board Ingredient) (g : Grid) (n x y : ℕ)
      → row_matches rules p g n x y ≡ true
      → (u : ℕ) → x ≤ u
      → u < x + n
      → cell_matches rules (at rules p u y) (Grid.at g u y) ≡ true
  unfolding row_matches
  row_matches_sound p g zero x y h u lo hi = absurd (omega arith)
  row_matches_sound p g (suc n) x y h u lo hi = elim (dec_lt x u) [
    | yes later ↦ row_matches_sound p g n (x + 1) y (ground arith) u (omega arith) (omega arith)
    | no now ↦ let here : u ≡ x = omega arith in rw here (ground arith)
  ]

  row_matches_complete :
      (p : Board Ingredient) (g : Grid) (n x y : ℕ)
      → ((u : ℕ) → x ≤ u → u < x + n → cell_matches rules (at rules p u y) (Grid.at g u y) ≡ true)
      → row_matches rules p g n x y ≡ true
  unfolding row_matches
  row_matches_complete p g zero x y h = refl
  row_matches_complete p g (suc n) x y h = rw (
    h x (omega arith) (omega arith),
    row_matches_complete p g n (x + 1) y (λ u lo hi. h u (omega arith) (omega arith)),
  )

  rows_match_sound :
      (p : Board Ingredient) (g : Grid) (n y : ℕ)
      → rows_match rules p g n y ≡ true
      → (v : ℕ) → y ≤ v
      → v < y + n
      → row_matches rules p g p.width 0 v ≡ true
  unfolding rows_match
  rows_match_sound p g zero y h v lo hi = absurd (omega arith)
  rows_match_sound p g (suc n) y h v lo hi = elim (dec_lt y v) [
    | yes later ↦ rows_match_sound p g n (y + 1) (ground arith) v (omega arith) (omega arith)
    | no now ↦ let here : v ≡ y = omega arith in rw here (ground arith)
  ]

  rows_match_complete :
      (p : Board Ingredient) (g : Grid) (n y : ℕ)
      → ((v : ℕ) → y ≤ v → v < y + n → row_matches rules p g p.width 0 v ≡ true)
      → rows_match rules p g n y ≡ true
  unfolding rows_match
  rows_match_complete p g zero y h = refl
  rows_match_complete p g (suc n) y h = rw (
    h y (omega arith) (omega arith),
    rows_match_complete p g n (y + 1) (λ v lo hi. h v (omega arith) (omega arith)),
  )

  -- A shaped pattern matches a trimmed grid exactly where it has the grid's width and height and
  -- every one of its cells matches: a blank the empty cell, any other ingredient an occupied cell
  -- that satisfies it.
  pub shaped_match_iff :
      (p : Board Ingredient) (g : Grid)
      → (shaped_match rules p g ≡ true) ↔ ((p.width ≡ g.width) × (p.height ≡ g.height) × Fits p g)
  unfolding shaped_match
  shaped_match_iff p g = (sound, complete)
    where
      sound : shaped_match rules p g ≡ true → (p.width ≡ g.width) × (p.height ≡ g.height) × Fits p g
      sound h =
          let rows : rows_match rules p g p.height 0 ≡ true = ground arith in
          (
            ground arith,
            ground arith,
            λ x y hx hy.
                row_matches_sound p g p.width 0 y
                  (rows_match_sound p g p.height 0 rows y (omega arith) (omega arith)) x
                  (omega arith) (omega arith),
          )

      complete :
          (p.width ≡ g.width) × (p.height ≡ g.height) × Fits p g → shaped_match rules p g ≡ true
      complete (w, h, fits) =
          let rows : rows_match rules p g p.height 0 ≡ true =
            rows_match_complete p g p.height 0 (λ v lo hi.
              row_matches_complete p g p.width 0 v
                (λ u a b. fits u v (omega arith) (omega arith))) in
          ground (arith, rows)

  length-reversed_row : (p : Board Ingredient) (n y : ℕ) → length (reversed_row rules p n y) ≡ n
  unfolding reversed_row
  length-reversed_row p zero y = refl
  length-reversed_row p (suc n) y = ap suc (length-reversed_row p n y)

  get_or-reversed_row :
      (p : Board Ingredient) (n y i : ℕ)
      → i < n
      → get_or (reversed_row rules p n y) i rules.blank ≡ at rules p (n - 1 - i) y
  unfolding reversed_row
  get_or-reversed_row p zero y i h = absurd (omega arith)
  get_or-reversed_row p (suc n) y zero h = let e : suc n - 1 - 0 ≡ n = omega arith in rw e
  get_or-reversed_row p (suc n) y (suc i) h =
      let e : suc n - 1 - suc i ≡ n - 1 - i = omega arith in
      rw e (get_or-reversed_row p n y i (omega arith))

  get_or-reversed_rows :
      (p : Board Ingredient) (n y i j : ℕ)
      → i < p.width
      → j < n
      → get_or (reversed_rows rules p n y) (j * p.width + i) rules.blank
        ≡ at rules p (p.width - 1 - i) (y + j)
  unfolding reversed_rows
  get_or-reversed_rows p zero y i j hi hj = absurd (omega arith)
  get_or-reversed_rows p (suc n) y i zero hi hj =
      let e : 0 * p.width + i ≡ i = omega arith in
      let e' : y + 0 ≡ y = omega arith in
      rw (e, e')
        (get_or-append_left rules.blank (reversed_row rules p p.width y) _ i
            (omega (arith, length-reversed_row p p.width y))
          ∙ get_or-reversed_row p p.width y i hi)
  get_or-reversed_rows p (suc n) y i (suc j) hi hj =
      let e : y + suc j ≡ y + 1 + j = omega arith in
      get_or-append_right rules.blank (reversed_row rules p p.width y) _ (suc j * p.width + i)
        (j * p.width + i) (omega (arith, length-reversed_row p p.width y))
      ∙ get_or-reversed_rows p n (y + 1) i j hi (omega arith)
      ∙ ap (at rules p (p.width - 1 - i)) (sym e)

  mirrored_cell :
      (p : Board Ingredient) (x y : ℕ)
      → x < p.width
      → y < p.height
      → at rules (mirror rules p) x y ≡ at rules p (p.width - 1 - x) y
  unfolding mirror Board.at
  mirrored_cell p x y hx hy =
      get_or-reversed_rows p p.height 0 x y hx hy ∙ ap (at rules p (p.width - 1 - x)) (omega arith)

  -- The mirrored pattern has at each place what the pattern has at the place mirrored in its width,
  -- so mirroring twice gives every cell back.
  pub at-mirror :
      (p : Board Ingredient) (x y : ℕ)
      → x < p.width
      → y < p.height
      → (at rules (mirror rules p) x y ≡ at rules p (p.width - 1 - x) y)
        × (at rules (mirror rules (mirror rules p)) x y ≡ at rules p x y)
  at-mirror p x y hx hy = (
    mirrored_cell p x y hx hy,
    mirrored_cell (mirror rules p) x y (unfold mirror in hx) (unfold mirror in hy)
        ∙ unfold mirror in
          (mirrored_cell p (p.width - 1 - x) y (omega arith) hy
            ∙ ap (λ i. at rules p i y) (omega arith)),
  )
