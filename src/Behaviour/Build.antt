-- ===== src/Behaviour/Build.antt =====
-- behaviour/build.go: the placing edges of a route. `Edge` and its kinds are the fields and constants of
-- minecraft-simulation's navigation that the source reads; `other` is any kind it does not name. `half`
-- is 0.5.
pub mod Placings
pub mod Cells
pub mod Settling
use headless_minecraft.Base.{
  ℕ, zero, suc, ◌+◌, ◌-◌, ◌^◌, Bool, true, false, not, ◌||◌, Option, none, some, List, [], ◌∷◌,
  ◌++◌, ℤ, pos, negsuc, ltb, leb, int_leb, is_empty, get_elem?, keep, if◌then◌else◌, ◌==◌, nat_key,
}
use headless_minecraft.Safety.{Unicode, Text, Authorization, scope_observe, scope_build, scope_move}
use headless_minecraft.Version.Actions.{Action, Hand, main_hand, BlockPos, Face}
use headless_minecraft.Behaviour.{
  Ticked, decided, running, complete, stopped, reason_failed, require_scopes,
}
use headless_minecraft.Behaviour.Observed.{
  Snapshot, at_least_zero, Built, built, refused, no_placement, bad_hotbar_slot, authorized,
}

pub data EdgeKind : Type 0 where
  place : EdgeKind
  pillar : EdgeKind
  walk : EdgeKind
  step : EdgeKind
  fall : EdgeKind
  swim : EdgeKind
  jump_gap : EdgeKind
  water_drop : EdgeKind
  climb : EdgeKind
  door : EdgeKind
  other : EdgeKind

pub record Edge : Type 0 where
  pub kind : EdgeKind
  pub from : BlockPos
  pub to : BlockPos

pub record Build : Type 0 where
  pub edges : List Edge
  pub slot : ℕ
  pub hand : Hand
  pub settle : ℕ
  pub at : ℕ
  pub waited : ℕ
  pub placed : Bool
  pub started : ℕ

abbrev pub puts_down : Edge → Bool
puts_down edge = elim edge.kind [ place ↦ true | pillar ↦ true | _ ↦ false ]

abbrev pub placements : List Edge → List Edge
placements path = keep puts_down path

abbrev pub unbuilt : List Edge → ℕ → ℕ → Build
unbuilt edges slot settle = record {
  edges = edges;
  slot = slot;
  hand = main_hand;
  settle = settle;
  at = 0;
  waited = 0;
  placed = false;
  started = 0;
}

unfoldable pub new_build :
    {Err : Type 0} → Unicode → Authorization → Text → List Edge → ℕ → ℤ → Built Build Err
new_build u a endpoint path slot settle =
    authorized (require_scopes u a endpoint (scope_observe ∷ scope_build ∷ scope_move ∷ [])) (
      if ltb 8 slot
      then refused (bad_hotbar_slot slot)
      else if is_empty (placements path)
      then refused no_placement
      else built (unbuilt (placements path) slot (at_least_zero settle)))

-- `y - 1` on an int32, which wraps at the least value.
abbrev pub below : ℤ → ℤ
below (pos zero) = negsuc 0
below (pos (suc n)) = pos n
below (negsuc n) = if n == 2 ^ 31 - 1 then pos (2 ^ 31 - 1) else negsuc (n + 1)

-- `to > from` on an int32.
abbrev pub beyond : ℤ → ℤ → Bool
beyond to from = not (int_leb to from)

abbrev pub side_toward : BlockPos → BlockPos → Face
side_toward from to =
    if beyond to.x from.x
    then Face.east
    else if beyond from.x to.x
    then Face.west
    else if beyond to.z from.z
    then Face.south
    else if beyond from.z to.z
    then Face.north
    else Face.top

abbrev pub support : Edge → BlockPos
support edge = record edge.from { y = below edge.from.y }

unfoldable pub placement_face : Edge → Option (BlockPos × Face)
placement_face edge = elim edge.kind [
  | place ↦ some (support edge, side_toward edge.from edge.to)
  | pillar ↦ some (support edge, Face.top)
  | _ ↦ none
]

-- The actions of one placement: select, then use the slot's item on the middle of the face.
abbrev pub put_down :
    {F32 F64 Claim : Type 0} → F32 → ℕ → Hand → BlockPos → Face → List (Action F32 F64 Claim)
put_down half slot hand target face =
    Action.held_slot slot
    ∷ Action.use_on (record {
      block = target;
      face = face;
      cursor = record { x = half; y = half; z = half };
      hand = hand;
    })
    ∷ []

module _ {F32 F64 Value Claim Err : Type 0} (half : F32) where
  abbrev pub wait_to_settle :
      Build → Snapshot F32 F64 Value → Build × Ticked (Action F32 F64 Claim) Err
  wait_to_settle b observed =
      let waited = b.waited + 1 in
      if ltb b.started observed.revision || leb b.settle waited
      then (record b { placed = false; waited = 0; at = suc b.at }, decided (running []))
      else (record b { waited = waited }, decided (running []))

  abbrev pub place_next :
      Build → Edge → Snapshot F32 F64 Value → Build × Ticked (Action F32 F64 Claim) Err
  place_next b edge observed = elim (placement_face edge) [
    | none ↦ (b, decided (stopped reason_failed))
    | some (target, face) ↦ (
      record b { placed = true; started = observed.revision },
      decided (running (put_down half b.slot b.hand target face)),
    )
  ]

  -- `Tick`
  unfoldable pub build_tick :
      Build → Snapshot F32 F64 Value → Build × Ticked (Action F32 F64 Claim) Err
  build_tick b observed =
      if not observed.player.known
      then (b, decided (running []))
      else elim (get_elem? b.edges b.at) [
        | none ↦ (b, decided (complete []))
        | some edge ↦ if b.placed then wait_to_settle b observed else place_next b edge observed
      ]
