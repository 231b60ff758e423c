-- ===== src/Client/Windows/Plans.antt =====
-- client/window.go: what a plan of a click predicts.
use headless_minecraft.Base.{
  ◌≡◌, arith, Bool, true, false, not, ◌||◌, Option, none, some, List, [], ◌∷◌, map, ℤ, Bool-cases,
  Option-cases, inl, inr, ==_refl, int_key, All, All-append,
}
use headless_minecraft.Version.Actions.{ClickMode}
use headless_minecraft.World.Containers.{Container, Containers, SlotSnapshot}
use headless_minecraft.World.Containers.Rollback.Restore.{member}
use headless_minecraft.Client.Windows.{
  Menus, Crafter, CraftingLayout, plan_click, plan_pickup, plan_result_click, predict_cells,
  predict_next, claim_of, is_left_pickup, result_of,
}

member_head : (slot : ℤ) (rest : List ℤ) → member slot (slot ∷ rest) ≡ true
unfolding member
member_head slot rest = ground (arith, ==_refl slot)

module _ {Item : Type 0} where
  -- The slots that a plan predicts are among those whose contents it keeps for a rollback.
  abbrev pub IsCovered : List (SlotSnapshot Item) → List ℤ → Type 0
  IsCovered predicted slots = All (λ (b : SlotSnapshot Item). member b.slot slots ≡ true) predicted

  weaken :
      (predicted : List (SlotSnapshot Item)) (slot : ℤ) (slots : List ℤ)
      → IsCovered predicted slots
      → IsCovered predicted (slot ∷ slots)
  unfolding member
  weaken [] slot slots h = tt
  weaken (b ∷ predicted) slot slots h = (ground (arith, h.0), weaken predicted slot slots h.1)

  predict_cells-IsCovered :
      (grid : List ℤ) (cells : List (Option Item)) → IsCovered (predict_cells grid cells) grid
  unfolding predict_cells
  predict_cells-IsCovered [] cells = tt
  predict_cells-IsCovered (slot ∷ grid) [] = tt
  predict_cells-IsCovered (slot ∷ grid) (cell ∷ cells) = (
    member_head slot grid,
    weaken (predict_cells grid cells) slot grid (predict_cells-IsCovered grid cells),
  )

  plan_pickup-IsCovered :
      (cursor_empty slot_empty : Bool) (item cursor : Option Item) (slot : ℤ)
      → let plan = plan_pickup cursor_empty slot_empty item cursor slot in
        IsCovered plan.predicted plan.snapshot_slots
  plan_pickup-IsCovered true true item cursor slot = tt
  plan_pickup-IsCovered true false item cursor slot = (member_head slot [], tt)
  plan_pickup-IsCovered false true item cursor slot = (member_head slot [], tt)
  plan_pickup-IsCovered false false item cursor slot = tt

  predict_next-IsCovered :
      (after : Option (Option Item × List (Option Item))) (slot : ℤ) (grid : List ℤ)
      → IsCovered (predict_next after slot ∷ []) (slot ∷ grid)
  predict_next-IsCovered none slot grid = (member_head slot grid, tt)
  predict_next-IsCovered (some craft) slot grid = (member_head slot grid, tt)

  plan_result_click-IsCovered :
      (crafter : Crafter Item) (layout : CraftingLayout) (view : Container Item)
      → let plan = plan_result_click crafter layout view in
        IsCovered plan.predicted plan.snapshot_slots
  unfolding plan_result_click
  plan_result_click-IsCovered crafter layout view =
      elim (Option-cases (crafter.predict_craft (map (claim_of view) layout.grid))) [
        | inl no_craft ↦ rw (plan_result_click, no_craft) tt
        | inr ((result, remaining), crafted) ↦
            rw (plan_result_click, crafted)
              (All-append
                (λ (b : SlotSnapshot Item). member b.slot (layout.result ∷ layout.grid) ≡ true)
                (predict_cells layout.grid remaining)
                (predict_next (crafter.predict_craft remaining) layout.result ∷ [])
                (weaken (predict_cells layout.grid remaining) layout.result layout.grid
                  (predict_cells-IsCovered layout.grid remaining))
                (predict_next-IsCovered (crafter.predict_craft remaining) layout.result
                  layout.grid))
      ]

  pub plan_click-IsCovered :
      (menus : Menus Item) (view : Container Item) (s : Containers Item) (window slot button : ℤ)
      (mode : ClickMode)
      → let plan = plan_click menus view s window slot button mode in
        IsCovered plan.predicted plan.snapshot_slots
  unfolding plan_click
  plan_click-IsCovered menus view s window slot button mode =
      elim (Bool-cases (is_left_pickup mode button)) [
        | inr other ↦ rw (plan_click, other) tt
        | inl left ↦ elim (Option-cases menus.stack_empty) [
          | inl no_stacks ↦ rw (plan_click, left, no_stacks) tt
          | inr (stack_empty, stacks) ↦
              let cursor_empty = not s.cursor_held || stack_empty s.cursor in
              elim (Option-cases (result_of menus.crafter cursor_empty view window slot)) [
                | inl plain ↦
                    rw (plan_click, left, stacks, plain)
                      (plan_pickup-IsCovered cursor_empty (stack_empty (claim_of view slot))
                        (claim_of view slot) s.cursor slot)
                | inr ((crafter, layout), result) ↦
                    rw (plan_click, left, stacks, result)
                      (plan_result_click-IsCovered crafter layout view)
              ]
        ]
      ]
