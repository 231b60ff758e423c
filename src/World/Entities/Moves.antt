-- ===== src/World/Entities/Moves.antt =====
-- world/entities.go: spawning, removal and movement.
use headless_minecraft.Base.{
  String, Bool, true, false, ℤ, if◌then◌else◌, int_key, nat_key, string_key,
}
use headless_minecraft.Base.Map
use headless_minecraft.Base.Map.{Map}
use headless_minecraft.Event.{emit}
use headless_minecraft.Event.Entities.{EntityEvent}
use headless_minecraft.World.Floats.{Floats}
use headless_minecraft.World.Entities.{Entity, Entities, Events, tracked_at, modify}

module _ {F32 F64 : Type 0} (floats : Floats F32 F64) {Value : Type 0} where
  emit_move : Events F32 F64 → Entity F32 F64 Value → Bool → Events F32 F64
  unfolding emit
  emit_move c e relative = emit c (
      EntityEvent.moved (record {
        entity_id = e.id;
        x = e.x;
        y = e.y;
        z = e.z;
        yaw = e.yaw;
        pitch = e.pitch;
        head_yaw = e.head_yaw;
        on_ground = e.on_ground;
        relative = relative;
      }))

  -- A write to the fields of one entity and the event about it as it then is.
  move :
      Entities F32 F64 Value
      → Events F32 F64
      → ℤ
      → (Entity F32 F64 Value → Entity F32 F64 Value)
      → Bool
      → Entities F32 F64 Value × Events F32 F64
  unfolding modify emit_move tracked_at
  move s c id change relative =
      (modify floats s id change, emit_move c (change (tracked_at floats s id)) relative)

  unfoldable pub spawned :
      Entities F32 F64 Value
      → Events F32 F64
      → ℤ
      → String
      → String
      → F64
      → F64
      → F64
      → F32
      → F32
      → Entities F32 F64 Value × Events F32 F64
  unfolding modify emit
  spawned s c id uuid kind x y z yaw pitch = (
    modify floats s id
        (λ e. record e { uuid = uuid; kind = kind; x = x; y = y; z = z; yaw = yaw; pitch = pitch }),
    emit c (
        EntityEvent.spawned (record {
          entity_id = id;
          uuid = uuid;
          kind = kind;
          x = x;
          y = y;
          z = z;
          yaw = yaw;
          pitch = pitch;
        })),
  )

  unfoldable pub moved :
      Entities F32 F64 Value
      → Events F32 F64
      → ℤ
      → F64
      → F64
      → F64
      → F32
      → F32
      → Bool
      → Entities F32 F64 Value × Events F32 F64
  unfolding move
  moved s c id x y z yaw pitch on_ground =
      move s c id
        (λ e. record e { x = x; y = y; z = z; yaw = yaw; pitch = pitch; on_ground = on_ground })
        false

  unfoldable pub moved_by :
      Entities F32 F64 Value
      → Events F32 F64
      → ℤ
      → F64
      → F64
      → F64
      → Bool
      → Entities F32 F64 Value × Events F32 F64
  unfolding move
  moved_by s c id dx dy dz on_ground =
      move s c id
        (λ e. record e {
          x = floats.add_64 e.x dx;
          y = floats.add_64 e.y dy;
          z = floats.add_64 e.z dz;
          on_ground = on_ground;
        })
        true

  unfoldable pub looked :
      Entities F32 F64 Value
      → Events F32 F64
      → ℤ
      → F32
      → F32
      → Bool
      → Entities F32 F64 Value × Events F32 F64
  unfolding move
  looked s c id yaw pitch on_ground =
      move s c id (λ e. record e { yaw = yaw; pitch = pitch; on_ground = on_ground }) false

  unfoldable pub head_looked :
      Entities F32 F64 Value → Events F32 F64 → ℤ → F32 → Entities F32 F64 Value × Events F32 F64
  unfolding move
  head_looked s c id head_yaw = move s c id (λ e. record e { head_yaw = head_yaw }) false

module _ {F32 F64 Value : Type 0} where
  unfoldable pub removed :
      Entities F32 F64 Value → Events F32 F64 → ℤ → Entities F32 F64 Value × Events F32 F64
  unfolding emit
  removed s c id =
      if Map.contains id s.tracked
      then (record s { tracked = Map.delete id s.tracked }, emit c (EntityEvent.removed id))
      else (s, c)

  unfoldable pub item_collected :
      Entities F32 F64 Value → Events F32 F64 → ℤ → ℤ → ℤ → Entities F32 F64 Value × Events F32 F64
  unfolding emit
  item_collected s c collected collector count = (
    record s { tracked = Map.delete collected s.tracked },
    emit c (
        EntityEvent.item_collected
          (record { collected_id = collected; collector_id = collector; count = count })),
  )
