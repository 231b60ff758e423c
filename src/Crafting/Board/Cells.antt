-- ===== src/Crafting/Board/Cells.antt =====
-- The cells of a box, read back by their place in it.
use headless_minecraft.Base.{
  ℕ, zero, suc, ◌+◌, ◌*◌, ◌<◌, ◌≡◌, refl, sym, ◌∙◌, ap, List, [], ◌∷◌, ◌++◌, length, length-append,
  get_or, arith,
}
use headless_minecraft.Crafting.Board.{Board, at, row_cells, box_cells}

module _ {A : Type 0} (d : A) where
  pub get_or-append_left :
      (xs ys : List A) (i : ℕ) → i < length xs → get_or (xs ++ ys) i d ≡ get_or xs i d
  get_or-append_left [] ys i h = absurd (omega arith)
  get_or-append_left (x ∷ xs) ys zero h = refl
  get_or-append_left (x ∷ xs) ys (suc i) h = get_or-append_left xs ys i (omega arith)

  pub get_or-append_right :
      (xs ys : List A) (n i : ℕ) → n ≡ length xs + i → get_or (xs ++ ys) n d ≡ get_or ys i d
  get_or-append_right [] ys n i e = let e' : n ≡ i = omega arith in rw e'
  get_or-append_right (x ∷ xs) ys zero i e = absurd (omega arith)
  get_or-append_right (x ∷ xs) ys (suc n) i e = get_or-append_right xs ys n i (omega arith)

module _ {A : Type 0} (nothing : A) where
  length-row_cells : (g : Board A) (n x y : ℕ) → length (row_cells nothing g n x y) ≡ n
  unfolding row_cells
  length-row_cells g zero x y = refl
  length-row_cells g (suc n) x y = ap suc (length-row_cells g n (x + 1) y)

  get_or-row_cells :
      (g : Board A) (n x y i : ℕ)
      → i < n
      → get_or (row_cells nothing g n x y) i nothing ≡ at nothing g (x + i) y
  unfolding row_cells
  get_or-row_cells g zero x y i h = absurd (omega arith)
  get_or-row_cells g (suc n) x y zero h = let e : x + 0 ≡ x = omega arith in rw e
  get_or-row_cells g (suc n) x y (suc i) h =
      let e : x + suc i ≡ x + 1 + i = omega arith in
      rw e (get_or-row_cells g n (x + 1) y i (omega arith))

  pub length-box_cells : (g : Board A) (h w x y : ℕ) → length (box_cells nothing g h w x y) ≡ h * w
  unfolding box_cells
  length-box_cells g zero w x y = omega arith
  length-box_cells g (suc h) w x y = omega (
    arith,
    length-append (row_cells nothing g w x y) (box_cells nothing g h w x (y + 1)),
    length-row_cells g w x y,
    length-box_cells g h w x (y + 1),
  )

  pub get_or-box_cells :
      (g : Board A) (h w x y i j : ℕ)
      → i < w
      → j < h
      → get_or (box_cells nothing g h w x y) (j * w + i) nothing ≡ at nothing g (x + i) (y + j)
  unfolding box_cells
  get_or-box_cells g zero w x y i j hi hj = absurd (omega arith)
  get_or-box_cells g (suc h) w x y i zero hi hj =
      let e : 0 * w + i ≡ i = omega arith in
      let e' : y + 0 ≡ y = omega arith in
      rw (e, e')
        (get_or-append_left nothing (row_cells nothing g w x y) _ i
            (omega (arith, length-row_cells g w x y))
          ∙ get_or-row_cells g w x y i hi)
  get_or-box_cells g (suc h) w x y i (suc j) hi hj =
      let e : y + suc j ≡ y + 1 + j = omega arith in
      get_or-append_right nothing (row_cells nothing g w x y) _ (suc j * w + i) (j * w + i)
        (omega (arith, length-row_cells g w x y))
      ∙ get_or-box_cells g h w x (y + 1) i j hi (omega arith)
      ∙ ap (at nothing g (x + i)) (sym e)
