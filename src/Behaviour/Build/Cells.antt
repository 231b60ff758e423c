-- ===== src/Behaviour/Build/Cells.antt =====
-- behaviour/build.go: the cells that the edges of a route fill, by where a route goes and apart from what
-- the source computes, and what a client sends to fill them.
use headless_minecraft.Base.{
  ℕ, zero, suc, ◌≡◌, ◌^◌, ◌-◌, refl, ap, sym, arith, Bool, true, false, Option, none, some, List,
  [], ◌∷◌, ◌++◌, ℤ, pos, negsuc, keep, take, All, Bool-cases, inl, inr, ◌==◌, nat_key,
}
use headless_minecraft.Version.Actions.{Action, Hand, main_hand, BlockPos, Face}
use headless_minecraft.Behaviour.Build.{
  Edge, EdgeKind, place, pillar, placements, puts_down, placement_face, put_down, side_toward,
  below, beyond,
}

abbrev pub one_more : ℤ → ℤ
one_more (pos n) = pos (suc n)
one_more (negsuc zero) = pos 0
one_more (negsuc (suc n)) = negsuc n

abbrev pub one_less : ℤ → ℤ
one_less (pos zero) = negsuc 0
one_less (pos (suc n)) = pos n
one_less (negsuc n) = negsuc (suc n)

-- The cell that shares a face with a cell.
abbrev pub across : Face → BlockPos → BlockPos
across Face.bottom p = record p { y = one_less p.y }
across Face.top p = record p { y = one_more p.y }
across Face.north p = record p { z = one_less p.z }
across Face.south p = record p { z = one_more p.z }
across Face.west p = record p { x = one_less p.x }
across Face.east p = record p { x = one_more p.x }

abbrev pub is_side : Face → Bool
is_side Face.bottom = false
is_side Face.top = false
is_side _ = true

-- The cell that an edge needs a block in: under where a bridge lands, and where a pillar stands.
abbrev pub filled : Edge → Option BlockPos
filled edge = elim edge.kind [
  | place ↦ some (across Face.bottom edge.to)
  | pillar ↦ some edge.from
  | _ ↦ none
]

-- The least int32.
abbrev pub is_least : ℤ → Bool
is_least (pos n) = false
is_least (negsuc n) = n == 2 ^ 31 - 1

-- Where a bridging edge leads: one cell to a side, at one height.
abbrev pub LeadsAside : Edge → Type 0
LeadsAside edge = elim edge.kind [
  | place ↦ (face : Face) × (is_side face ≡ true) × (edge.to ≡ across face edge.from)
  | _ ↦ Unit
]

-- An edge of a route over cells that have one below.
abbrev pub IsSound : Edge → Type 0
IsSound edge = (is_least edge.from.y ≡ false) × LeadsAside edge

module _ {F32 F64 Claim : Type 0} (half : F32) (slot : ℕ) where
  -- What fills the cells of a route's edges in their order, of all of them or up to some edge: for each, the
  -- slot is selected, and its item used on the middle of the face that a cell shares with the one to fill.
  pub data IsLaid (whole : Bool) : List Edge → List (Action F32 F64 Claim) → Type 0 where
    done : IsLaid whole [] []
    halts : {path : List Edge} → whole ≡ false → IsLaid whole path []
    passes :
        {edge : Edge} {path : List Edge} {sent : List (Action F32 F64 Claim)}
        → filled edge ≡ none
        → IsLaid whole path sent
        → IsLaid whole (edge ∷ path) sent
    lays :
        {edge : Edge} {path : List Edge} {sent : List (Action F32 F64 Claim)}
        → (target : BlockPos) (face : Face) → filled edge ≡ some (across face target)
        → IsLaid whole path sent
        → IsLaid whole (edge ∷ path) (
            Action.held_slot slot
            ∷ Action.use_on (record {
              block = target;
              face = face;
              cursor = record { x = half; y = half; z = half };
              hand = main_hand;
            })
            ∷ sent)

module _ {F32 F64 Claim : Type 0} where
  -- The actions of one edge.
  abbrev pub placing : F32 → ℕ → Hand → Edge → List (Action F32 F64 Claim)
  placing half slot hand edge = elim (placement_face edge) [
    | none ↦ []
    | some (target, face) ↦ put_down half slot hand target face
  ]

  -- The actions of the edges, one after another.
  unfoldable pub placings : F32 → ℕ → Hand → List Edge → List (Action F32 F64 Claim)
  placings half slot hand [] = []
  placings half slot hand (edge ∷ edges) =
      let rest = placings half slot hand edges in placing half slot hand edge ++ rest

  pub placings-some :
      (half : F32) (slot : ℕ) (hand : Hand) (edge : Edge) (edges : List Edge)
      (face : BlockPos × Face)
      → placement_face edge ≡ some face
      → placings half slot hand (edge ∷ edges)
        ≡ put_down half slot hand face.0 face.1 ++ placings half slot hand edges
  unfolding placings
  placings-some half slot hand edge edges face h = rw (placing, h) refl

one_more-one_less : (y : ℤ) → one_more (one_less y) ≡ y
one_more-one_less (pos zero) = refl
one_more-one_less (pos (suc n)) = refl
one_more-one_less (negsuc n) = refl

below_lem : (y : ℤ) → is_least y ≡ false → below y ≡ one_less y
below_lem (pos zero) h = refl
below_lem (pos (suc n)) h = refl
below_lem (negsuc n) h = rw h (ap negsuc (omega arith))

beyond_same : (x : ℤ) → beyond x x ≡ false
beyond_same (pos n) = ground arith
beyond_same (negsuc n) = ground arith

beyond-one_more : (x : ℤ) → beyond (one_more x) x ≡ true
beyond-one_more (pos n) = ground arith
beyond-one_more (negsuc zero) = refl
beyond-one_more (negsuc (suc n)) = ground arith

beyond-one_less : (x : ℤ) → (beyond (one_less x) x ≡ false) × (beyond x (one_less x) ≡ true)
beyond-one_less (pos zero) = (refl, refl)
beyond-one_less (pos (suc n)) = (ground arith, ground arith)
beyond-one_less (negsuc n) = (ground arith, ground arith)

side_toward-across :
    (face : Face) (from : BlockPos)
    → is_side face ≡ true
    → side_toward from (across face from) ≡ face
side_toward-across Face.bottom from h = absurd (ground (arith, h))
side_toward-across Face.top from h = absurd (ground (arith, h))
side_toward-across Face.east from h = rw (beyond-one_more from.x) refl
side_toward-across Face.west from h =
    let (not_east, west) = beyond-one_less from.x in rw (not_east, west) refl
side_toward-across Face.south from h = rw (beyond_same from.x, beyond-one_more from.z) refl
side_toward-across Face.north from h =
    let (not_south, north) = beyond-one_less from.z in
    rw (beyond_same from.x, not_south, north) refl

-- A bridge's support touches, on the side that it leads to, the cell under where it lands.
across_bottom :
    (face : Face) (from : BlockPos)
    → is_side face ≡ true
    → is_least from.y ≡ false
    → across Face.bottom (across face from) ≡ across face (record from { y = below from.y })
across_bottom Face.bottom from side low = absurd (ground (arith, side))
across_bottom Face.top from side low = absurd (ground (arith, side))
across_bottom Face.north from side low = rw (below_lem from.y low) refl
across_bottom Face.south from side low = rw (below_lem from.y low) refl
across_bottom Face.west from side low = rw (below_lem from.y low) refl
across_bottom Face.east from side low = rw (below_lem from.y low) refl

-- A pillar's support touches, on its top, the cell that the body stands in.
across_top :
    (from : BlockPos)
    → is_least from.y ≡ false
    → from ≡ across Face.top (record from { y = below from.y })
across_top from low =
    ap (λ y. record from { y = y }) (sym (rw (below_lem from.y low) (one_more-one_less from.y)))

walks-filled :
    (kind : EdgeKind) (from to : BlockPos)
    → let edge : Edge = record { kind = kind; from = from; to = to } in
      puts_down edge ≡ false → filled edge ≡ none
walks-filled place from to h = absurd (ground (arith, h))
walks-filled pillar from to h = absurd (ground (arith, h))
walks-filled _ from to h = refl

module _ {F32 F64 Claim : Type 0} (half : F32) (slot : ℕ) where
  -- What is sent for one edge lays its block.
  placing-IsLaid :
      (whole : Bool) (path : List Edge) (sent : List (Action F32 F64 Claim)) (kind : EdgeKind)
      (from to : BlockPos)
      → let edge : Edge = record { kind = kind; from = from; to = to } in
        IsSound edge
        → puts_down edge ≡ true
        → IsLaid half slot whole path sent
        → IsLaid half slot whole (edge ∷ path) (placing half slot main_hand edge ++ sent)
  unfolding placement_face
  placing-IsLaid whole path sent place from to (low, (face, side, leads)) puts rest =
      lays (record from { y = below from.y }) (side_toward from to)
        (rw (leads, side_toward-across face from side) (ap some (across_bottom face from side low)))
        rest
  placing-IsLaid whole path sent pillar from to (low, leads) puts rest =
      lays (record from { y = below from.y }) Face.top (ap some (across_top from low)) rest
  placing-IsLaid whole path sent _ from to sound puts rest = absurd (ground (arith, puts))

  pub placings-IsLaid :
      (path : List Edge)
      → All IsSound path
      → IsLaid {F64 = F64} {Claim = Claim} half slot true path
          (placings half slot main_hand (placements path))
  unfolding placings keep
  placings-IsLaid [] sound = done
  placings-IsLaid (edge ∷ path) sound = elim (Bool-cases (puts_down edge)) [
    | inl puts ↦ rw puts (
        placing-IsLaid true path (placings half slot main_hand (placements path)) edge.kind
          edge.from edge.to sound.0 puts (placings-IsLaid path sound.1))
    | inr walks ↦
        rw walks
          (passes (walks-filled edge.kind edge.from edge.to walks) (placings-IsLaid path sound.1))
  ]

  -- The same of the first placing edges of a path.
  pub placings-take :
      (n : ℕ) (path : List Edge)
      → All IsSound path
      → IsLaid {F64 = F64} {Claim = Claim} half slot false path
          (placings half slot main_hand (take n (placements path)))
  unfolding placings keep
  placings-take zero path sound = halts refl
  placings-take (suc n) [] sound = done
  placings-take (suc n) (edge ∷ path) sound = elim (Bool-cases (puts_down edge)) [
    | inl puts ↦ rw puts (
        placing-IsLaid false path (placings half slot main_hand (take n (placements path)))
          edge.kind edge.from edge.to sound.0 puts (placings-take n path sound.1))
    | inr walks ↦ rw walks (
        passes (walks-filled edge.kind edge.from edge.to walks)
          (placings-take (suc n) path sound.1))
  ]
