-- ===== src/Behaviour/Build/Placings.antt =====
-- behaviour/build.go: what a build sends.
use headless_minecraft.Base.{
  ℕ, suc, ◌+◌, ◌≡◌, ◌∙◌, sym, ap, refl, true, false, ◌||◌, List, [], ◌∷◌, ◌++◌, ltb, leb,
  Bool-cases, inl, inr, take, drop, All, get_elem?-drop, get_elem?-drop_nil, Option-cases,
  drop-suc_of,
}
use headless_minecraft.Version.Actions.{Action}
use headless_minecraft.Behaviour.{run, Run}
use headless_minecraft.Behaviour.Observed.{Snapshot}
use headless_minecraft.Behaviour.Build.Cells.{
  placings, placings-some, placings-take, IsSound, IsLaid,
}
use headless_minecraft.Behaviour.Build.{
  Build, Edge, placement_face, put_down, placements, unbuilt, build_tick, place_next,
}

module _ (F32 F64 Value Claim Err : Type 0) (half : F32) where
  abbrev pub build_run :
      Build
      → List (Snapshot F32 F64 Value)
      → Run (Snapshot F32 F64 Value) (Action F32 F64 Claim) Err
  build_run b seen = run (build_tick half) b seen

  -- What the run sends is the placings of some first edges of those left.
  abbrev IsPrefix : Build → List Edge → List (Snapshot F32 F64 Value) → Type 0
  IsPrefix b left seen =
      (n : ℕ) × ((build_run b seen).actions ≡ placings half b.slot b.hand (take n left))

  -- A build that is to place the first of the edges left, or waits for the one before them.
  abbrev NextPrefix : List (Snapshot F32 F64 Value) → Type 0
  NextPrefix seen =
      (b : Build) (left : List Edge)
      → b.placed ≡ false
      → drop b.at b.edges ≡ left
      → IsPrefix b left seen

  abbrev PlacedPrefix : List (Snapshot F32 F64 Value) → Type 0
  PlacedPrefix seen =
      (b : Build) (edge : Edge) (left : List Edge)
      → b.placed ≡ true
      → drop b.at b.edges ≡ edge ∷ left
      → IsPrefix b left seen

  next_prefix :
      (o : Snapshot F32 F64 Value) (rest : List (Snapshot F32 F64 Value))
      → NextPrefix rest
      → PlacedPrefix rest
      → NextPrefix (o ∷ rest)
  unfolding run build_tick placings
  next_prefix o rest next placed b left is_next h = elim (Bool-cases o.player.known) [
    | inr unknown ↦ rw unknown (next b left is_next h)
    | inl known ↦ go left h known
  ]
    where
      go :
          (left : List Edge)
          → drop b.at b.edges ≡ left
          → o.player.known ≡ true
          → IsPrefix b left (o ∷ rest)
      go [] h known = (0, rw (known, get_elem?-drop_nil b.edges b.at h) refl)
      go (edge ∷ left) h known = elim (Option-cases (placement_face edge)) [
        | inl no_face ↦ (
          0,
          rw (known, get_elem?-drop edge b.edges b.at left h, is_next, place_next, no_face) refl,
        )
        | inr (face, has_face) ↦
            let b2 = record b { placed = true; started = o.revision } in
            let (n, later) = placed b2 edge left refl h in
            (
              suc n,
              rw (known, get_elem?-drop edge b.edges b.at left h, is_next, place_next, has_face)
                  (ap (λ all. put_down half b.slot b.hand face.0 face.1 ++ all) later
                    ∙ sym (placings-some half b.slot b.hand edge (take n left) face has_face)),
            )
      ]

  placed_prefix :
      (o : Snapshot F32 F64 Value) (rest : List (Snapshot F32 F64 Value))
      → NextPrefix rest
      → PlacedPrefix rest
      → PlacedPrefix (o ∷ rest)
  unfolding run build_tick
  placed_prefix o rest next placed b edge left is_placed h = elim (Bool-cases o.player.known) [
    | inr unknown ↦ rw unknown (placed b edge left is_placed h)
    | inl known ↦ elim (Bool-cases (ltb b.started o.revision || leb b.settle (b.waited + 1))) [
      | inl settled ↦
          rw (known, get_elem?-drop edge b.edges b.at left h, is_placed, settled)
            (next (record b { placed = false; waited = 0; at = suc b.at }) left refl
              (drop-suc_of edge b.edges b.at left h))
      | inr early ↦
          rw (known, get_elem?-drop edge b.edges b.at left h, is_placed, early)
            (placed (record b { placed = true; waited = b.waited + 1 }) edge left refl h)
    ]
  ]

  all_prefix : (seen : List (Snapshot F32 F64 Value)) → NextPrefix seen × PlacedPrefix seen
  unfolding run placings
  all_prefix [] = (λ b left is_next h. (0, refl), λ b edge left is_placed h. (0, refl))
  all_prefix (o ∷ rest) =
      let later = all_prefix rest in
      (next_prefix o rest later.0 later.1, placed_prefix o rest later.0 later.1)

  -- Along a route whose bridging edges lead one cell to a side, from cells that have one below: whatever
  -- a build observes, what it has sent fills the cells of the route's edges in their order, up to some
  -- edge, and is nothing else. For each cell it selects the slot and uses the item on the face that the
  -- cell shares with the block to place against; it sends no look.
  pub build_run-placements :
      (path : List Edge) (slot settle : ℕ) (seen : List (Snapshot F32 F64 Value))
      → All IsSound path
      → IsLaid half slot false path (build_run (unbuilt (placements path) slot settle) seen).actions
  build_run-placements path slot settle seen sound =
      let (n, sent) =
        (all_prefix seen).0 (unbuilt (placements path) slot settle) (placements path) refl refl in
      rw sent (placings-take half slot n path sound)
