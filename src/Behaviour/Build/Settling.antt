-- ===== src/Behaviour/Build/Settling.antt =====
-- behaviour/build.go: how long a build takes.
use headless_minecraft.Base.{
  ℕ, zero, suc, ◌+◌, ◌-◌, ◌*◌, ◌≡◌, ◌∙◌, sym, ap, ◌≤◌, ◌<◌, refl, arith, max, true, false, ◌||◌,
  List, [], ◌∷◌, ◌++◌, ltb, leb, Bool-cases, Option-cases, inl, inr, length, drop, get_elem?-drop,
  get_elem?-drop_nil, drop-suc_of, is_some, keep, All,
}
use headless_minecraft.Version.Actions.{Action}
use headless_minecraft.Behaviour.{run, completed, Run}
use headless_minecraft.Behaviour.Observed.{Snapshot, known_ticks}
use headless_minecraft.Behaviour.Build.{
  Build, Edge, placement_face, put_down, placements, puts_down, unbuilt, build_tick, place_next,
}
use headless_minecraft.Behaviour.Build.Cells.{
  placings, placings-some, placings-IsLaid, IsSound, IsLaid,
}
use headless_minecraft.Behaviour.Build.Placings.{build_run}

-- The most ticks that so many placements can take, and the one that sees they are done.
unfoldable pub budget : ℕ → ℕ → ℕ
budget settle zero = 1
budget settle (suc edges) = let rest = budget settle edges in 1 + max 1 settle + rest

budget_pos : (settle edges : ℕ) → 1 ≤ budget settle edges
unfolding budget
budget_pos settle zero = omega arith
budget_pos settle (suc edges) = omega (arith, budget_pos settle edges)

budget_lem : (settle edges : ℕ) → budget settle edges ≡ edges * (1 + max 1 settle) + 1
unfolding budget
budget_lem settle zero = omega arith
budget_lem settle (suc edges) = grind (arith, budget_lem settle edges)

-- An edge for which there is a face to place on.
abbrev HasFace : Edge → Type 0
HasFace edge = is_some (placement_face edge) ≡ true

puts_down-HasFace : (edge : Edge) → puts_down edge ≡ true → HasFace edge
unfolding placement_face
puts_down-HasFace edge h = ground (arith, h)

placements-HasFace : (path : List Edge) → All HasFace (placements path)
unfolding keep
placements-HasFace [] = tt
placements-HasFace (edge ∷ path) = elim (Bool-cases (puts_down edge)) [
  | inl puts ↦ rw puts (puts_down-HasFace edge puts, placements-HasFace path)
  | inr walks ↦ rw walks (placements-HasFace path)
]

module _ (F32 F64 Value Claim Err : Type 0) (half : F32) where
  abbrev runs :
      Build
      → List (Snapshot F32 F64 Value)
      → Run (Snapshot F32 F64 Value) (Action F32 F64 Claim) Err
  runs b seen = build_run F32 F64 Value Claim Err half b seen

  -- The run completes, having sent the placings of all the edges left.
  abbrev IsDone : Build → List Edge → List (Snapshot F32 F64 Value) → Type 0
  IsDone b left seen =
      (completed (runs b seen) ≡ true) × ((runs b seen).actions ≡ placings half b.slot b.hand left)

  abbrev NextDone : List (Snapshot F32 F64 Value) → Type 0
  NextDone seen =
      (b : Build) (left : List Edge)
      → b.placed ≡ false
      → b.waited ≡ 0
      → drop b.at b.edges ≡ left
      → All HasFace left
      → budget b.settle (length left) ≤ known_ticks seen
      → IsDone b left seen

  abbrev PlacedDone : List (Snapshot F32 F64 Value) → Type 0
  PlacedDone seen =
      (b : Build) (edge : Edge) (left : List Edge)
      → b.placed ≡ true
      → b.waited < max 1 b.settle
      → drop b.at b.edges ≡ edge ∷ left
      → All HasFace left
      → max 1 b.settle - b.waited + budget b.settle (length left) ≤ known_ticks seen
      → IsDone b left seen

  next_done :
      (o : Snapshot F32 F64 Value) (rest : List (Snapshot F32 F64 Value))
      → NextDone rest
      → PlacedDone rest
      → NextDone (o ∷ rest)
  unfolding run build_tick known_ticks budget placings
  next_done o rest next placed b left is_next fresh h faces enough =
      elim (Bool-cases o.player.known) [
        | inr unknown ↦
            rw unknown (next b left is_next fresh h faces (ground (arith, enough, unknown)))
        | inl known ↦ go left h faces enough known
      ]
    where
      go :
          (left : List Edge)
          → drop b.at b.edges ≡ left
          → All HasFace left
          → budget b.settle (length left) ≤ known_ticks (o ∷ rest)
          → o.player.known ≡ true
          → IsDone b left (o ∷ rest)
      go [] h faces enough known = rw (known, get_elem?-drop_nil b.edges b.at h) (refl, refl)
      go (edge ∷ left) h faces enough known = elim (Option-cases (placement_face edge)) [
        | inl no_face ↦ absurd (ground (arith, faces.0, no_face))
        | inr (face, has_face) ↦
            let later =
              placed (record b { placed = true; started = o.revision }) edge left refl
                (ground (arith, fresh)) h faces.1 (ground (arith, enough, known, fresh)) in
            rw (known, get_elem?-drop edge b.edges b.at left h, is_next, place_next, has_face)
              (
                later.0,
                ap (λ all. put_down half b.slot b.hand face.0 face.1 ++ all) later.1
                    ∙ sym (placings-some half b.slot b.hand edge left face has_face),
              )
      ]

  placed_done :
      (o : Snapshot F32 F64 Value) (rest : List (Snapshot F32 F64 Value))
      → NextDone rest
      → PlacedDone rest
      → PlacedDone (o ∷ rest)
  unfolding run build_tick known_ticks budget
  placed_done o rest next placed b edge left is_placed short h faces enough =
      elim (Bool-cases o.player.known) [
        | inr unknown ↦
            rw unknown
              (placed b edge left is_placed short h faces (ground (arith, enough, unknown)))
        | inl known ↦ elim (Bool-cases (ltb b.started o.revision || leb b.settle (b.waited + 1))) [
          | inl settled ↦
              rw (known, get_elem?-drop edge b.edges b.at left h, is_placed, settled)
                (next (record b { placed = false; waited = 0; at = suc b.at }) left refl refl
                  (drop-suc_of edge b.edges b.at left h) faces
                  (ground (arith, enough, known, short)))
          | inr early ↦
              rw (known, get_elem?-drop edge b.edges b.at left h, is_placed, early)
                (placed (record b { placed = true; waited = b.waited + 1 }) edge left refl
                  (ground (arith, early, short)) h faces (ground (arith, enough, known, short)))
        ]
      ]

  all_done : (seen : List (Snapshot F32 F64 Value)) → NextDone seen × PlacedDone seen
  unfolding known_ticks run
  all_done [] = (
    λ b left is_next fresh h faces enough.
        absurd (omega (arith, enough, budget_pos b.settle (length left))),
    λ b edge left is_placed short h faces enough.
        absurd (omega (arith, enough, budget_pos b.settle (length left))),
  )
  all_done (o ∷ rest) =
      let later = all_done rest in
      (next_done o rest later.0 later.1, placed_done o rest later.0 later.1)

  -- Along a route whose bridging edges lead one cell to a side, from cells that have one below: given a
  -- tick and the settling time, at least one tick, for each placing edge, and one tick more, a build
  -- completes, and what it has sent fills the cells of all the route's edges in their order, and is
  -- nothing else. It sends no look.
  pub build_run_done :
      (path : List Edge) (slot settle : ℕ) (seen : List (Snapshot F32 F64 Value))
      → All IsSound path
      → length (placements path) * (1 + max 1 settle) < known_ticks seen
      → let r = runs (unbuilt (placements path) slot settle) seen in
        (completed r ≡ true) × IsLaid half slot true path r.actions
  build_run_done path slot settle seen sound enough =
      let (ends, sent) =
        (all_done seen).0 (unbuilt (placements path) slot settle) (placements path) refl refl refl
          (placements-HasFace path)
          (omega (arith, enough, budget_lem settle (length (placements path)))) in
      (ends, rw sent (placings-IsLaid half slot path sound))
