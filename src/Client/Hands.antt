-- ===== src/Client/Hands.antt =====
-- client/attack.go, client/dig.go and client/place.go: the calls that send more than one action, or work
-- one out. The arithmetic of floats and the constants are an interface. A dig's wait is what ended it,
-- with what other goroutines did to the client meanwhile.
pub mod Sequences
use headless_minecraft.Base.{
  ℕ, suc, zero, Bool, true, false, Option, none, some, List, [], ◌∷◌, ℤ, pos, negsuc, if◌then◌else◌,
  ◌==◌, nat_key, not,
}
use headless_minecraft.Event.{Event}
use headless_minecraft.Version.Actions.{
  Action, BlockPos, Face, bottom, top, north, south, west, east, Cursor, UseOn, Interact, DigStage,
  main_hand, attack,
}
use headless_minecraft.World.Containers.{Containers}
use headless_minecraft.Client.Actions.{
  Client, ClientError, client_closed, unknown_entity, not_placed, out_of_reach, dig_cancelled,
  cancel_failed, Wire, seen, do_action,
}

pub record Position (F64 : Type 0) : Type 0 where
  pub x : F64
  pub y : F64
  pub z : F64

-- What `Attack` reads of the player.
pub record Body (F64 : Type 0) : Type 0 where
  pub placed : Bool
  pub game_mode : ℕ
  pub position : Position F64

-- The floats of client/attack.go, with its constants.
pub record Metric (F64 : Type 0) : Type 0 where
  pub add : F64 → F64 → F64
  pub sub : F64 → F64 → F64
  pub mul : F64 → F64 → F64
  pub sqrt : F64 → F64
  pub exceeds : F64 → F64 → Bool
  pub attack_reach : F64
  pub creative_attack_reach_18 : F64
  pub creative_attack_reach_26 : F64
  pub eye_height : F64

-- 0, 0.5 and 1, the coordinates in a face.
pub record FaceFloats (F32 : Type 0) : Type 0 where
  pub zero_float : F32
  pub half : F32
  pub one_float : F32

pub data Waited (Err : Type 0) : Type 0 where
  elapsed : Waited Err
  cancelled : Err → Waited Err
  client_done : Waited Err

-- `FaceCentre`
unfoldable pub face_centre : {F32 : Type 0} → FaceFloats F32 → Face → Cursor F32
face_centre u face =
    let centre : Cursor _ = record { x = u.half; y = u.half; z = u.half } in
    elim face [
      | bottom ↦ record centre { y = u.zero_float }
      | top ↦ record centre { y = u.one_float }
      | north ↦ record centre { z = u.zero_float }
      | south ↦ record centre { z = u.one_float }
      | west ↦ record centre { x = u.zero_float }
      | east ↦ record centre { x = u.one_float }
    ]

-- A duration that is waited out.
abbrev pub is_positive : ℤ → Bool
is_positive (pos (suc n)) = true
is_positive _ = false

module _ {F64 : Type 0} (m : Metric F64) where
  -- `attackReach`; creative is game mode 1.
  unfoldable pub reach_of : Bool → ℕ → F64
  reach_of is_47 game_mode =
      if not (game_mode == 1)
      then m.attack_reach
      else if is_47
      then m.creative_attack_reach_18
      else m.creative_attack_reach_26

  -- The distance from the player's eye.
  unfoldable pub distance : Position F64 → Position F64 → F64
  distance entity player =
      let dx = m.sub entity.x player.x in
      let dy = m.sub entity.y (m.add player.y m.eye_height) in
      let dz = m.sub entity.z player.z in
      m.sqrt (m.add (m.add (m.mul dx dx) (m.mul dy dy)) (m.mul dz dz))

abbrev pub attack_on : {F32 F64 Item : Type 0} → ℤ → Action F32 F64 Item
attack_on target =
    Action.interact
      (record { entity = target; kind = attack; at = none; hand = main_hand; sneaking = false })

module _ {P E Others Err Packet Item : Type 0} where
  -- A call, and what follows where it did not fail.
  abbrev pub do_then :
      Client P E Others Err Packet Item × Option (ClientError Err)
      → (Client P E Others Err Packet Item
          → Client P E Others Err Packet Item × Option (ClientError Err))
      → Client P E Others Err Packet Item × Option (ClientError Err)
  do_then r f = elim r.1 [ none ↦ f r.0 | some e ↦ r ]

module _ {F32 F64 P E Others Err Packet Item : Type 0} (event : Event E)
    (wire : Wire F32 F64 Packet E Err Item) (is_dead : Others → Bool) where
  abbrev pub act :
      Client P E Others Err Packet Item
      → Action F32 F64 Item
      → Client P E Others Err Packet Item × Option (ClientError Err)
  act c action = do_action event wire is_dead c (some action)

  -- The two sends of `Attack`.
  unfoldable pub swing_at :
      Client P E Others Err Packet Item
      → ℤ
      → Client P E Others Err Packet Item × Option (ClientError Err)
  swing_at c target = do_then (act c (Action.swing main_hand)) (λ d. act d (attack_on target))

  -- `Attack`, over what a snapshot says of the entities and of the player.
  unfoldable pub attack_entity :
      Metric F64
      → Bool
      → (Others → ℤ → Option (Position F64))
      → (Others → Body F64)
      → Client P E Others Err Packet Item
      → ℤ
      → Client P E Others Err Packet Item × Option (ClientError Err)
  attack_entity m is_47 sight body c target =
      elim (seen {X = Position F64 × Body F64} c (λ menus others. elim (sight others target) [
        | none ↦ none
        | some entity ↦ some (entity, body others)
      ])) [
        | none ↦ (c, some (unknown_entity target))
        | some (entity, player) ↦
            if not player.placed
            then (c, some (not_placed target))
            else if m.exceeds (distance m entity player.position)
                (reach_of m is_47 player.game_mode)
            then (c, some (out_of_reach target))
            else swing_at c target
      ]

  -- `cancelDig`
  unfoldable pub cancel_dig :
      Client P E Others Err Packet Item
      → BlockPos
      → Face
      → Err
      → Client P E Others Err Packet Item × Option (ClientError Err)
  cancel_dig c block face cause =
      let r = act c (Action.dig block face DigStage.cancel) in
      elim r.1 [
        | none ↦ (r.0, some (dig_cancelled cause))
        | some e ↦ (r.0, some (cancel_failed cause e))
      ]

  abbrev pub finish_dig :
      Client P E Others Err Packet Item
      → BlockPos
      → Face
      → Client P E Others Err Packet Item × Option (ClientError Err)
  finish_dig c block face = act c (Action.dig block face DigStage.finish)

  -- What `Dig` does once it waits no longer.
  unfoldable pub after_wait :
      Client P E Others Err Packet Item
      → BlockPos
      → Face
      → Waited Err
      → Client P E Others Err Packet Item × Option (ClientError Err)
  after_wait c block face elapsed = finish_dig c block face
  after_wait c block face (cancelled cause) = cancel_dig c block face cause
  after_wait c block face client_done = (c, some client_closed)

  -- `Dig`
  unfoldable pub dig_block :
      Client P E Others Err Packet Item
      → BlockPos
      → Face
      → ℤ
      → Waited Err
      → (Client P E Others Err Packet Item → Client P E Others Err Packet Item)
      → Client P E Others Err Packet Item × Option (ClientError Err)
  dig_block c block face breaking waited meanwhile =
      do_then (act c (Action.dig block face DigStage.start)) (λ d.
        if is_positive breaking
        then after_wait (meanwhile d) block face waited
        else finish_dig d block face)

  -- `Place`
  unfoldable pub place_block :
      FaceFloats F32
      → Client P E Others Err Packet Item
      → BlockPos
      → Face
      → Client P E Others Err Packet Item × Option (ClientError Err)
  place_block u c block face = act c (
      Action.use_on
        (record { block = block; face = face; cursor = face_centre u face; hand = main_hand }))
