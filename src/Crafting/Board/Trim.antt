-- ===== src/Crafting/Board/Trim.antt =====
-- Trimming keeps every cell of the box at its offset, and only blank cells lie outside.
use headless_minecraft.Base.{
  ℕ, ◌+◌, ◌*◌, ◌≤◌, ◌<◌, ◌≡◌, Bool, false, length, nat_beq, arith, Bool-cases, inl, inr,
}
use headless_minecraft.Crafting.Board.{Board, at, bounds, trim, cut}
use headless_minecraft.Crafting.Board.Boxes.{bounds-IsInside, bounds-Covers}
use headless_minecraft.Crafting.Board.Cells.{length-box_cells, get_or-box_cells}

module _ {A : Type 0} (nothing : A) (is_blank : A → Bool) where
  -- What `trim` promises of its result `t` at offset `(dx, dy)`.
  pub record IsTrimmed (g : Board A) (t : Board A × ℕ × ℕ) : Type 0 where
    pub filled : length t.0.cells ≡ t.0.height * t.0.width
    pub inside : (t.1 + t.0.width ≤ g.width) × (t.2 + t.0.height ≤ g.height)
    pub kept :
        (x y : ℕ)
        → x < t.0.width
        → y < t.0.height
        → at nothing t.0 x y ≡ at nothing g (t.1 + x) (t.2 + y)
    pub covered :
        (x y : ℕ)
        → x < g.width
        → y < g.height
        → is_blank (at nothing g x y) ≡ false
        → (t.1 ≤ x) × (x < t.1 + t.0.width) × (t.2 ≤ y) × (y < t.2 + t.0.height)

  -- The trimmed board fills its own rectangle and lies inside the given one; each of its cells is
  -- the one at its offset, and every cell that is not blank lies in it. So a read within the trimmed
  -- board is a read within the given one.
  pub trim-IsTrimmed : (g : Board A) → IsTrimmed g (trim nothing is_blank g)
  unfolding trim cut at
  trim-IsTrimmed g = elim (Bool-cases (nat_beq (bounds nothing is_blank g).end_x 0)) [
    | inl none_met ↦ rw none_met (record {
      filled = omega arith;
      inside = (omega arith, omega arith);
      kept = λ x y hx hy. absurd (omega arith);
      covered = λ x y hx hy s.
          absurd (ground (arith, (bounds-Covers nothing is_blank g x y s hx hy).right));
    })
    | inr met ↦
        let inside = bounds-IsInside nothing is_blank g in
        rw met (record {
          filled = length-box_cells nothing g _ _ _ _;
          inside = (
            ground (arith, inside.wide, inside.right),
            ground (arith, inside.high, inside.bottom),
          );
          kept = λ x y hx hy. get_or-box_cells nothing g _ _ _ _ x y hx hy;
          covered = λ x y hx hy s.
              let c = bounds-Covers nothing is_blank g x y s hx hy in
              (c.left, omega (arith, c.left, c.right), c.top, omega (arith, c.top, c.bottom));
        })
  ]
