-- ===== src/World/Entities/Riders.antt =====
-- world/entities.go: who rides whom.
pub mod Switches
use headless_minecraft.Base.{
  ℕ, ◌+◌, String, Bool, true, false, not, ◌&&◌, Option, none, some, List, [], ◌∷◌, ◌++◌, ℤ, pos,
  negsuc, leb, is_empty, if◌then◌else◌, ◌==◌, int_key, nat_key, string_key, int_leb, map,
}
use headless_minecraft.Base.Map
use headless_minecraft.Base.Map.{Map}
use headless_minecraft.Base.Sort.{sort}
use headless_minecraft.Event.{emit}
use headless_minecraft.Event.Damage.{Damage}
use headless_minecraft.Event.Entities.{EntityEvent}
use headless_minecraft.World.Floats.{Floats}
use headless_minecraft.World.Entities.{
  Entity, Entities, Metadata, Attribute, Events, max_metadata_keys, put, tracked_at, track, modify,
}

module _ {F32 F64 : Type 0} (floats : Floats F32 F64) {Value : Type 0} where
  -- One turn of the loop over the previous passengers: a rider that is tracked rides nothing now.
  unfoldable pub dismount_one : Entities F32 F64 Value → ℤ → Entities F32 F64 Value
  dismount_one s rider = elim (Map.lookup rider s.tracked) [
    | some e ↦ put s rider (record e { vehicle = pos 0 })
    | none ↦ s
  ]

  unfoldable pub dismount : Entities F32 F64 Value → List ℤ → Entities F32 F64 Value
  unfolding dismount_one
  dismount s [] = s
  dismount s (rider ∷ rest) = dismount (dismount_one s rider) rest

  unfoldable pub mount : Entities F32 F64 Value → ℤ → List ℤ → Entities F32 F64 Value
  unfolding modify
  mount s id [] = s
  mount s id (rider ∷ rest) = mount (modify floats s rider (λ e. record e { vehicle = id })) id rest

  unfoldable pub passengers_changed :
      Entities F32 F64 Value → Events F32 F64 → ℤ → List ℤ → Entities F32 F64 Value × Events F32 F64
  unfolding dismount mount modify track tracked_at emit
  passengers_changed s c id passengers =
      let emptied = dismount (track floats s id) (tracked_at floats s id).passengers in
      (
        mount (modify floats emptied id (λ e. record e { passengers = passengers })) id passengers,
        emit c
            (EntityEvent.passengers_changed (record { entity_id = id; passengers = passengers })),
      )

  unfoldable pub attached :
      Entities F32 F64 Value → Events F32 F64 → ℤ → ℤ → Entities F32 F64 Value × Events F32 F64
  unfolding modify emit
  attached s c id vehicle =
      let off = vehicle == negsuc 0 in
      (
        modify floats s id (λ e. record e { vehicle = if off then pos 0 else vehicle }),
        emit c (
            EntityEvent.passengers_changed
              (record { entity_id = vehicle; passengers = if off then [] else id ∷ [] })),
      )
