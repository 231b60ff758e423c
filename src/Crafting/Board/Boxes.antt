-- ===== src/Crafting/Board/Boxes.antt =====
-- The box of a board covers every cell that is not blank and stays inside the board.
use headless_minecraft.Base.{
  ℕ, zero, suc, ◌+◌, ◌≤◌, ◌<◌, ◌≡◌, Bool, false, arith, dec_lt, Bool-cases, inl, inr,
}
use headless_minecraft.Crafting.Board.{Board, Box, at, widen, scan_row, scan_rows, bounds}

pub record Covers (b : Box) (x y : ℕ) : Type 0 where
  pub left : b.min_x ≤ x
  pub right : x < b.end_x
  pub top : b.min_y ≤ y
  pub bottom : y < b.end_y

-- Either no cell was met, or the box is not empty; it lies in a board of the given size.
pub record IsInside (w h : ℕ) (b : Box) : Type 0 where
  pub right : b.end_x ≤ w
  pub bottom : b.end_y ≤ h
  pub wide : 0 < b.end_x → b.min_x < b.end_x
  pub high : 0 < b.end_x → b.min_y < b.end_y

widen-IsInside :
    (w h x y : ℕ) (b : Box) → x < w → y < h → IsInside w h b → IsInside w h (widen b x y)
widen-IsInside w h x y b hx hy v = record {
  right = omega (arith, v.right);
  bottom = omega (arith, v.bottom);
  wide = λ p. omega arith;
  high = λ p. omega arith;
}

module _ {A : Type 0} (nothing : A) (is_blank : A → Bool) where
  scan_row-IsInside :
      (g : Board A) (h n x y : ℕ) (b : Box)
      → x + n ≤ g.width
      → y < h
      → IsInside g.width h b
      → IsInside g.width h (scan_row nothing is_blank g n x y b)
  unfolding scan_row
  scan_row-IsInside g h zero x y b r hy v = v
  scan_row-IsInside g h (suc n) x y b r hy v =
      scan_row-IsInside g h n (x + 1) y _ (omega arith) hy
        (elim (Bool-cases (is_blank (at nothing g x y))) [
          | inl e ↦ rw e v
          | inr e ↦ rw e (widen-IsInside g.width h x y b (omega arith) hy v)
        ])

  scan_rows-IsInside :
      (g : Board A) (n y : ℕ) (b : Box)
      → y + n ≤ g.height
      → IsInside g.width g.height b
      → IsInside g.width g.height (scan_rows nothing is_blank g n y b)
  unfolding scan_rows
  scan_rows-IsInside g zero y b r v = v
  scan_rows-IsInside g (suc n) y b r v =
      scan_rows-IsInside g n (y + 1) _ (omega arith)
        (scan_row-IsInside g g.height g.width 0 y b (omega arith) (omega arith) v)

  pub bounds-IsInside : (g : Board A) → IsInside g.width g.height (bounds nothing is_blank g)
  unfolding bounds
  bounds-IsInside g = scan_rows-IsInside g g.height 0 _ (omega arith) (record {
    right = omega arith;
    bottom = omega arith;
    wide = λ p. omega arith;
    high = λ p. omega arith;
  })

  scan_row-Covers_kept :
      (g : Board A) (n x y : ℕ) (b : Box) (u v : ℕ)
      → Covers b u v
      → Covers (scan_row nothing is_blank g n x y b) u v
  unfolding scan_row
  scan_row-Covers_kept g zero x y b u v c = c
  scan_row-Covers_kept g (suc n) x y b u v c =
      scan_row-Covers_kept g n (x + 1) y _ u v (elim (Bool-cases (is_blank (at nothing g x y))) [
        | inl e ↦ rw e c
        | inr e ↦ rw e (record {
          left = omega (arith, c.left);
          right = omega (arith, c.right);
          top = omega (arith, c.top);
          bottom = omega (arith, c.bottom);
        })
      ])

  scan_row-Covers :
      (g : Board A) (n x y : ℕ) (b : Box) (u : ℕ)
      → is_blank (at nothing g u y) ≡ false
      → x ≤ u
      → u < x + n
      → Covers (scan_row nothing is_blank g n x y b) u y
  unfolding scan_row
  scan_row-Covers g zero x y b u s lo hi = absurd (omega arith)
  scan_row-Covers g (suc n) x y b u s lo hi = elim (dec_lt x u) [
    | yes later ↦ scan_row-Covers g n (x + 1) y _ u s (omega arith) (omega arith)
    | no now ↦
        let here : x ≡ u = omega arith in
        let seen : is_blank (at nothing g x y) ≡ false = rw here s in
        scan_row-Covers_kept g n (x + 1) y _ u y (
          rw seen (record {
            left = omega arith;
            right = omega arith;
            top = omega arith;
            bottom = omega arith;
          }))
  ]

  scan_rows-Covers_kept :
      (g : Board A) (n y : ℕ) (b : Box) (u v : ℕ)
      → Covers b u v
      → Covers (scan_rows nothing is_blank g n y b) u v
  unfolding scan_rows
  scan_rows-Covers_kept g zero y b u v c = c
  scan_rows-Covers_kept g (suc n) y b u v c =
      scan_rows-Covers_kept g n (y + 1) _ u v (scan_row-Covers_kept g g.width 0 y b u v c)

  scan_rows-Covers :
      (g : Board A) (n y : ℕ) (b : Box) (u v : ℕ)
      → is_blank (at nothing g u v) ≡ false
      → u < g.width
      → y ≤ v
      → v < y + n
      → Covers (scan_rows nothing is_blank g n y b) u v
  unfolding scan_rows
  scan_rows-Covers g zero y b u v s wide lo hi = absurd (omega arith)
  scan_rows-Covers g (suc n) y b u v s wide lo hi = elim (dec_lt y v) [
    | yes later ↦ scan_rows-Covers g n (y + 1) _ u v s wide (omega arith) (omega arith)
    | no now ↦
        let here : v ≡ y = omega arith in
        scan_rows-Covers_kept g n (y + 1) _ u v
          (rw here (scan_row-Covers g g.width 0 y b u (rw here at s) (omega arith) (omega arith)))
  ]

  pub bounds-Covers :
      (g : Board A) (u v : ℕ)
      → is_blank (at nothing g u v) ≡ false
      → u < g.width
      → v < g.height
      → Covers (bounds nothing is_blank g) u v
  unfolding bounds
  bounds-Covers g u v s wide high =
      scan_rows-Covers g g.height 0 _ u v s wide (omega arith) (omega arith)
