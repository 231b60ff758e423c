-- ===== src/Crafting/Match/Shapeless.antt =====
-- The backtracking of `shapelessMatch` finds a pairing exactly where there is one.
use mathlib.Core.Logic.{∥∥₁_elim}
use mathlib.Core.Bool.{Bool-set}
use mathlib.Core.List.Forall₂
use mathlib.Core.List.{Perm, Memᴰ, Forall₂, Forall₂-cons, mem-cons_self}
use mathlib.Core.List.Perm
use mathlib.Core.List.Memᴰ
use headless_minecraft.Base.{
  ℕ, zero, suc, ◌+◌, ◌≤◌, ◌<◌, ◌≡◌, refl, sym, ◌∙◌, ap, ◌↔◌, Bool, true, false, not, List, [], ◌∷◌,
  length, get_or, set, length-set, keep, arith, dec_lt, Bool-cases, inl, inr,
}
use headless_minecraft.Crafting.Grid
use headless_minecraft.Crafting.Grid.{Cell, Grid}
use headless_minecraft.Crafting.Match.{Rules, try_each, pair, none_used, shapeless_match}

module _ {Ingredient : Type 0} (rules : Rules Ingredient) where
  -- The wants whose mark is not set.
  unfoldable pub unused : List Ingredient → List Bool → List Ingredient
  unused [] us = []
  unused (w ∷ ws) [] = []
  unused (w ∷ ws) (true ∷ us) = unused ws us
  unused (w ∷ ws) (false ∷ us) = w ∷ unused ws us

  abbrev pub Pairs : List Cell → List Ingredient → Type 0
  Pairs = Forall₂ (λ (c : Cell) (w : Ingredient). rules.satisfies c w ≡ true)

  unused-none_used : (wants : List Ingredient) → unused wants (none_used rules wants) ≡ wants
  unfolding unused
  unused-none_used [] = refl
  unused-none_used (w ∷ ws) = ap (◌∷◌ w) (unused-none_used ws)

  -- Setting one mark takes exactly that want away.
  unused-set :
      (wants : List Ingredient) (used : List Bool) (w : ℕ)
      → length used ≡ length wants
      → get_or used w true ≡ false
      → Perm (unused wants used) (get_or wants w rules.blank ∷ unused wants (set used w true))
  unfolding unused
  unused-set [] [] w l h = absurd (ground arith)
  unused-set [] (u ∷ us) w l h = absurd (omega arith)
  unused-set (x ∷ xs) [] w l h = absurd (omega arith)
  unused-set (x ∷ xs) (false ∷ us) zero l h = Perm.refl _
  unused-set (x ∷ xs) (true ∷ us) zero l h = absurd (ground arith)
  unused-set (x ∷ xs) (true ∷ us) (suc w) l h = unused-set xs us w (omega arith) h
  unused-set (x ∷ xs) (false ∷ us) (suc w) l h =
      Perm.trans (Perm.cons x (unused-set xs us w (omega arith) h)) (Perm.swap _ x _)

  length-unused-set :
      (wants : List Ingredient) (used : List Bool) (w : ℕ)
      → length used ≡ length wants
      → get_or used w true ≡ false
      → length (unused wants used) ≡ suc (length (unused wants (set used w true)))
  unfolding unused
  length-unused-set [] [] w l h = absurd (ground arith)
  length-unused-set [] (u ∷ us) w l h = absurd (omega arith)
  length-unused-set (x ∷ xs) [] w l h = absurd (omega arith)
  length-unused-set (x ∷ xs) (false ∷ us) zero l h = refl
  length-unused-set (x ∷ xs) (true ∷ us) zero l h = absurd (ground arith)
  length-unused-set (x ∷ xs) (true ∷ us) (suc w) l h = length-unused-set xs us w (omega arith) h
  length-unused-set (x ∷ xs) (false ∷ us) (suc w) l h =
      ap suc (length-unused-set xs us w (omega arith) h)

  -- An index at which a want stands that is not used.
  record IsFree (wants : List Ingredient) (used : List Bool) (x : Ingredient) : Type 0 where
    index : ℕ
    within : index < length wants
    unmarked : get_or used index true ≡ false
    want : get_or wants index rules.blank ≡ x

  IsFree-later :
      (y : Ingredient) (u : Bool) (wants : List Ingredient) (used : List Bool) (x : Ingredient)
      → IsFree wants used x
      → IsFree (y ∷ wants) (u ∷ used) x
  IsFree-later y u wants used x f = record {
    index = suc f.index;
    within = omega (arith, f.within);
    unmarked = f.unmarked;
    want = f.want;
  }

  -- A pairing goes on from one want: what `try_each` looks for.
  record IsChoice (rest : List Bool → Bool) (cell : Cell) (wants : List Ingredient)
      (used : List Bool) (w : ℕ) : Type 0 where
    unmarked : get_or used w true ≡ false
    good : rules.satisfies cell (get_or wants w rules.blank) ≡ true
    paired : rest (set used w true) ≡ true

  try_each_sound :
      (rest : List Bool → Bool) (cell : Cell) (wants : List Ingredient) (used : List Bool) (n w : ℕ)
      → try_each rules rest cell wants used n w ≡ true
      → (v : ℕ) × IsChoice rest cell wants used v
  unfolding try_each
  try_each_sound rest cell wants used zero w h = cc
  try_each_sound rest cell wants used (suc n) w h = elim (Bool-cases (get_or used w true)) [
    | inl marked ↦ try_each_sound rest cell wants used n (w + 1) (ground arith)
    | inr free ↦ elim (Bool-cases (rules.satisfies cell (get_or wants w rules.blank))) [
      | inr bad ↦ try_each_sound rest cell wants used n (w + 1) (ground arith)
      | inl good ↦ elim (Bool-cases (rest (set used w true))) [
        | inl paired ↦ (w, record { unmarked = free; good = good; paired = paired })
        | inr stuck ↦ try_each_sound rest cell wants used n (w + 1) (ground arith)
      ]
    ]
  ]

  try_each_complete :
      (rest : List Bool → Bool) (cell : Cell) (wants : List Ingredient) (used : List Bool)
      (n w v : ℕ)
      → IsChoice rest cell wants used v
      → w ≤ v
      → v < w + n
      → try_each rules rest cell wants used n w ≡ true
  unfolding try_each
  try_each_complete rest cell wants used zero w v c lo hi = absurd (omega arith)
  try_each_complete rest cell wants used (suc n) w v c lo hi = elim (dec_lt w v) [
    | yes later ↦
        let next =
          try_each_complete rest cell wants used n (w + 1) v c (omega arith) (omega arith) in
        ground (arith, next)
    | no now ↦
        let here : w ≡ v = omega arith in rw here (ground (arith, c.unmarked, c.good, c.paired))
  ]

  perm_of_length_zero : (xs : List Ingredient) → length xs ≡ 0 → Perm xs []
  perm_of_length_zero [] h = Perm.refl []
  perm_of_length_zero (x ∷ xs) h = absurd (omega arith)

  pair_sound :
      (wants : List Ingredient) (cells : List Cell) (used : List Bool)
      → length used ≡ length wants
      → length (unused wants used) ≡ length cells
      → pair rules wants cells used ≡ true
      → (ws : List Ingredient) × Perm (unused wants used) ws × Pairs cells ws
  unfolding pair
  pair_sound wants [] used l n h = ([], perm_of_length_zero (unused wants used) n, Forall₂.nil)
  pair_sound wants (c ∷ cells) used l n h =
      let (v, choice) = try_each_sound (pair rules wants cells) c wants used (length wants) 0 h in
      let fewer = length-unused-set wants used v l choice.unmarked in
      let (ws, p, ps) =
        pair_sound wants cells (set used v true) (omega (arith, length-set used v true))
          (omega arith) choice.paired in
      (
        get_or wants v rules.blank ∷ ws,
        Perm.trans (unused-set wants used v l choice.unmarked) (Perm.cons _ p),
        Forall₂.cons choice.good ps,
      )

  IsFree-of_mem :
      (wants : List Ingredient) (used : List Bool) (x : Ingredient)
      → length used ≡ length wants
      → Memᴰ x (unused wants used)
      → IsFree wants used x
  unfolding unused
  IsFree-of_mem [] [] x l m = absurd (Memᴰ.not-nil m)
  IsFree-of_mem [] (u ∷ us) x l m = absurd (omega arith)
  IsFree-of_mem (y ∷ ws) [] x l m = absurd (omega arith)
  IsFree-of_mem (y ∷ ws) (true ∷ us) x l m =
      IsFree-later y true ws us x (IsFree-of_mem ws us x (omega arith) m)
  IsFree-of_mem (y ∷ ws) (false ∷ us) x l m = elim (Memᴰ.cases_cons m) [
    | inl e ↦ record { index = 0; within = omega arith; unmarked = refl; want = sym e }
    | inr later ↦ IsFree-later y false ws us x (IsFree-of_mem ws us x (omega arith) later)
  ]

  -- One step of completeness: a choice for a cell whose want heads the pairing.
  choice_of_pairing :
      (rest : List Bool → Bool) (wants : List Ingredient) (c : Cell) (used : List Bool)
      (x : Ingredient) (ws : List Ingredient)
      → length used ≡ length wants
      → Perm (unused wants used) (x ∷ ws)
      → rules.satisfies c x ≡ true
      → ((v : ℕ) → Perm (unused wants (set used v true)) ws → rest (set used v true) ≡ true)
      → try_each rules rest c wants used (length wants) 0 ≡ true
  choice_of_pairing rest wants c used x ws l p good later =
      ∥∥₁_elim ((Perm.mem_iff p).1 mem-cons_self) (Bool-set _ _)
        (λ md. found (IsFree-of_mem wants used x l md))
    where
      found : IsFree wants used x → try_each rules rest c wants used (length wants) 0 ≡ true
      found f =
          try_each_complete rest c wants used (length wants) 0 f.index
            (record {
              unmarked = f.unmarked;
              good = rw (f.want) good;
              paired = later f.index (
                  Perm.cons_inv (
                    Perm.trans
                      (Perm.symm (rw (f.want) at (unused-set wants used f.index l f.unmarked))) p));
            })
            (omega arith) (omega (arith, f.within))

  pair_complete :
      (wants : List Ingredient) (cells : List Cell) (ws : List Ingredient) (used : List Bool)
      → length used ≡ length wants
      → Perm (unused wants used) ws
      → Pairs cells ws
      → pair rules wants cells used ≡ true
  unfolding pair
  pair_complete wants [] ws used l p ps = refl
  pair_complete wants (c ∷ cells) [] used l p ps = cc (Forall₂.eq-nil_left ps)
  pair_complete wants (c ∷ cells) (x ∷ ws) used l p ps =
      let parts = Forall₂-cons.0 ps in
      choice_of_pairing (pair rules wants cells) wants c used x ws l p parts.0 (λ v q.
        pair_complete wants cells ws (set used v true) (length-set used v true ∙ l) q parts.1)

  unused_all : (wants : List Ingredient) → length (none_used rules wants) ≡ length wants
  unused_all [] = refl
  unused_all (w ∷ ws) = ap suc (unused_all ws)

  abbrev pub occupied : Grid → List Cell
  occupied g = keep (λ c. not (Grid.is_empty c)) g.cells

  -- A shapeless recipe matches a grid exactly where its wants can be put in an order in which each
  -- satisfies the occupied cell at its place, one want for each occupied cell.
  pub shapeless_match_iff :
      (wants : List Ingredient) (g : Grid)
      → (shapeless_match rules wants g ≡ true) ↔ (
          (length (occupied g) ≡ length wants)
          × ((ws : List Ingredient) × Perm wants ws × Pairs (occupied g) ws))
  unfolding shapeless_match
  shapeless_match_iff wants g = (sound, complete)
    where
      sound :
          shapeless_match rules wants g ≡ true
          → (length (occupied g) ≡ length wants)
            × ((ws : List Ingredient) × Perm wants ws × Pairs (occupied g) ws)
      sound h =
          let same : length (occupied g) ≡ length wants = ground arith in
          let paired : pair rules wants (occupied g) (none_used rules wants) ≡ true =
            ground arith in
          (
            same,
            rw (unused-none_used wants) at (
                pair_sound wants (occupied g) (none_used rules wants) (unused_all wants)
                  (ap length (unused-none_used wants) ∙ sym same) paired),
          )

      complete :
          (length (occupied g) ≡ length wants)
            × ((ws : List Ingredient) × Perm wants ws × Pairs (occupied g) ws)
          → shapeless_match rules wants g ≡ true
      complete (same, (ws, p, ps)) =
          let paired : pair rules wants (occupied g) (none_used rules wants) ≡ true =
            pair_complete wants (occupied g) ws (none_used rules wants) (unused_all wants)
              (rw (unused-none_used wants) p) ps in
          ground (arith, paired)
