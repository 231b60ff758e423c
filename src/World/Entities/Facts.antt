-- ===== src/World/Entities/Facts.antt =====
-- world/entities.go: metadata, equipment, attributes, effects, velocity, damage and death.
use headless_minecraft.Base.{
  ℕ, ◌+◌, String, Bool, true, false, not, ◌&&◌, List, [], ◌∷◌, ◌++◌, ℤ, pos, leb, is_empty,
  if◌then◌else◌, int_key, nat_key, string_key, int_leb, map,
}
use headless_minecraft.Base.Map
use headless_minecraft.Base.Map.{Map}
use headless_minecraft.Base.Sort.{sort}
use headless_minecraft.Event.{emit}
use headless_minecraft.Event.Damage.{Damage}
use headless_minecraft.Event.Entities.{EntityEvent}
use headless_minecraft.World.Floats.{Floats}
use headless_minecraft.World.Entities.{
  Entity, Entities, Metadata, Attribute, Events, max_metadata_keys, put, tracked_at, track, modify,
}

-- One turn of the loop over metadata entries, with the indices so far.
metadata_step :
    {F32 F64 Value : Type 0}
    → Entity F32 F64 Value × List ℕ
    → Metadata Value
    → Entity F32 F64 Value × List ℕ
metadata_step (e, indices) entry =
    if not (Map.contains entry.index e.metadata) && leb max_metadata_keys (Map.size e.metadata)
    then (record e { dropped_metadata = e.dropped_metadata + 1 }, indices)
    else (
      record e { metadata = Map.insert entry.index entry e.metadata },
      indices ++ entry.index ∷ [],
    )

metadata_loop :
    {F32 F64 Value : Type 0}
    → Entity F32 F64 Value × List ℕ
    → List (Metadata Value)
    → Entity F32 F64 Value × List ℕ
unfolding metadata_step
metadata_loop acc [] = acc
metadata_loop acc (entry ∷ rest) = metadata_loop (metadata_step acc entry) rest

insert_items : {Value : Type 0} → Map ℤ Value → List (ℤ × Value) → Map ℤ Value
insert_items equipment [] = equipment
insert_items equipment ((slot, item) ∷ rest) = insert_items (Map.insert slot item equipment) rest

insert_attributes :
    {F64 : Type 0} → Map String (Attribute F64) → List (Attribute F64) → Map String (Attribute F64)
insert_attributes attributes [] = attributes
insert_attributes attributes (a ∷ rest) = insert_attributes (Map.insert a.key a attributes) rest

module _ {F32 F64 : Type 0} (floats : Floats F32 F64) {Value : Type 0} where
  unfoldable pub metadata_changed :
      Entities F32 F64 Value
      → Events F32 F64
      → ℤ
      → List (Metadata Value)
      → Entities F32 F64 Value × Events F32 F64
  unfolding metadata_loop tracked_at emit
  metadata_changed s c id entries =
      let (e, indices) = metadata_loop (tracked_at floats s id, []) entries in
      if is_empty entries then (s, c) else (
        put s id e,
        (if is_empty indices
            then c
            else emit c
                (EntityEvent.metadata_changed (record { entity_id = id; indices = indices }))),
      )

  -- `items` lists the entries of the map in the order in which the runtime visits them.
  unfoldable pub equipment_changed :
      Entities F32 F64 Value
      → Events F32 F64
      → ℤ
      → List (ℤ × Value)
      → Entities F32 F64 Value × Events F32 F64
  unfolding insert_items modify emit
  equipment_changed s c id items = if is_empty items then (s, c) else (
    modify floats s id (λ e. record e { equipment = insert_items e.equipment items }),
    emit c (
        EntityEvent.equipment_changed
          (record { entity_id = id; slots = sort int_leb (map (λ (i : ℤ × Value). i.0) items) })),
  )

  unfoldable pub attributes_changed :
      Entities F32 F64 Value
      → Events F32 F64
      → ℤ
      → List (Attribute F64)
      → Entities F32 F64 Value × Events F32 F64
  unfolding insert_attributes modify emit
  attributes_changed s c id attributes = if is_empty attributes then (s, c) else (
    modify floats s id (λ e. record e { attributes = insert_attributes e.attributes attributes }),
    emit c (
        EntityEvent.attributes_changed
          (record { entity_id = id; keys = map (λ (a : Attribute F64). a.key) attributes })),
  )

  unfoldable pub effect_applied :
      Entities F32 F64 Value
      → Events F32 F64
      → ℤ
      → ℤ
      → ℤ
      → ℤ
      → Entities F32 F64 Value × Events F32 F64
  unfolding modify emit
  effect_applied s c id effect_id amplifier duration = (
    modify floats s id (λ e. record e {
      effects =
          Map.insert effect_id
            (record { id = effect_id; amplifier = amplifier; duration = duration }) e.effects;
    }),
    emit c (
        EntityEvent.effects_changed (record {
          entity_id = id;
          effect_id = effect_id;
          amplifier = amplifier;
          duration = duration;
          removed = false;
        })),
  )

  unfoldable pub effect_removed :
      Entities F32 F64 Value → Events F32 F64 → ℤ → ℤ → Entities F32 F64 Value × Events F32 F64
  unfolding modify emit
  effect_removed s c id effect_id = (
    modify floats s id (λ e. record e { effects = Map.delete effect_id e.effects }),
    emit c (
        EntityEvent.effects_changed (record {
          entity_id = id;
          effect_id = effect_id;
          amplifier = pos 0;
          duration = pos 0;
          removed = true;
        })),
  )

  unfoldable pub velocity_changed :
      Entities F32 F64 Value
      → Events F32 F64
      → ℤ
      → ℤ
      → ℤ
      → ℤ
      → Entities F32 F64 Value × Events F32 F64
  unfolding modify emit
  velocity_changed s c id x y z = (
    modify floats s id (λ e. record e { velocity = (x, y, z) }),
    emit c (EntityEvent.velocity_changed (record { entity_id = id; x = x; y = y; z = z })),
  )

  unfoldable pub damaged :
      Entities F32 F64 Value
      → Events F32 F64
      → ℤ
      → Damage F64
      → Entities F32 F64 Value × Events F32 F64
  unfolding track emit
  damaged s c id damage =
      (track floats s id, emit c (EntityEvent.damaged (record { entity_id = id; damage = damage })))

  unfoldable pub died :
      Entities F32 F64 Value
      → Events F32 F64
      → ℤ
      → ℤ
      → Bool
      → Entities F32 F64 Value × Events F32 F64
  unfolding track modify tracked_at emit
  died s c id killer_id attributed =
      if (tracked_at floats s id).dead then (track floats s id, c) else (
        modify floats s id (λ e. record e { dead = true }),
        emit c (
            EntityEvent.died
              (record { entity_id = id; killer_id = killer_id; attributed = attributed })),
      )

  unfoldable pub animated :
      Entities F32 F64 Value → Events F32 F64 → ℤ → ℕ → Entities F32 F64 Value × Events F32 F64
  unfolding track emit
  animated s c id animation = (
    track floats s id,
    emit c (EntityEvent.animated (record { entity_id = id; animation = animation })),
  )
