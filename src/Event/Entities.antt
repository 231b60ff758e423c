-- ===== src/Event/Entities.antt =====
-- event/entities.go: the events of the entities domain, one record for each struct of two fields or more;
-- an event of one field carries it in its constructor. Floats are types of their own.
use headless_minecraft.Base.{ℕ, ℤ, String, Bool, List}
use headless_minecraft.Event.Damage.{Damage}

pub record EntitySpawned (F32 F64 : Type 0) : Type 0 where
  pub entity_id : ℤ
  pub uuid : String
  pub kind : String
  pub x : F64
  pub y : F64
  pub z : F64
  pub yaw : F32
  pub pitch : F32

pub record EntityMoved (F32 F64 : Type 0) : Type 0 where
  pub entity_id : ℤ
  pub x : F64
  pub y : F64
  pub z : F64
  pub yaw : F32
  pub pitch : F32
  pub head_yaw : F32
  pub on_ground : Bool
  pub relative : Bool

pub record EntityMetadataChanged : Type 0 where
  pub entity_id : ℤ
  pub indices : List ℕ

pub record EntityEquipmentChanged : Type 0 where
  pub entity_id : ℤ
  pub slots : List ℤ

pub record EntityAttributesChanged : Type 0 where
  pub entity_id : ℤ
  pub keys : List String

pub record EntityEffectsChanged : Type 0 where
  pub entity_id : ℤ
  pub effect_id : ℤ
  pub amplifier : ℤ
  pub duration : ℤ
  pub removed : Bool

pub record EntityVelocityChanged : Type 0 where
  pub entity_id : ℤ
  pub x : ℤ
  pub y : ℤ
  pub z : ℤ

pub record EntityPassengersChanged : Type 0 where
  pub entity_id : ℤ
  pub passengers : List ℤ

pub record EntityDamaged (F64 : Type 0) : Type 0 where
  pub entity_id : ℤ
  pub damage : Damage F64

pub record EntityDied : Type 0 where
  pub entity_id : ℤ
  pub killer_id : ℤ
  pub attributed : Bool

pub record EntityAnimated : Type 0 where
  pub entity_id : ℤ
  pub animation : ℕ

pub record EntityItemCollected : Type 0 where
  pub collected_id : ℤ
  pub collector_id : ℤ
  pub count : ℤ

pub data EntityEvent (F32 F64 : Type 0) : Type 0 where
  spawned : EntitySpawned F32 F64 → EntityEvent F32 F64
  removed : ℤ → EntityEvent F32 F64
  moved : EntityMoved F32 F64 → EntityEvent F32 F64
  metadata_changed : EntityMetadataChanged → EntityEvent F32 F64
  equipment_changed : EntityEquipmentChanged → EntityEvent F32 F64
  attributes_changed : EntityAttributesChanged → EntityEvent F32 F64
  effects_changed : EntityEffectsChanged → EntityEvent F32 F64
  velocity_changed : EntityVelocityChanged → EntityEvent F32 F64
  passengers_changed : EntityPassengersChanged → EntityEvent F32 F64
  damaged : EntityDamaged F64 → EntityEvent F32 F64
  died : EntityDied → EntityEvent F32 F64
  animated : EntityAnimated → EntityEvent F32 F64
  item_collected : EntityItemCollected → EntityEvent F32 F64

module _ {F32 F64 : Type 0} where
  unfoldable pub name : EntityEvent F32 F64 → String
  name (spawned e) = "entity.spawned"
  name (removed e) = "entity.removed"
  name (moved e) = "entity.moved"
  name (metadata_changed e) = "entity.metadata_changed"
  name (equipment_changed e) = "entity.equipment_changed"
  name (attributes_changed e) = "entity.attributes_changed"
  name (effects_changed e) = "entity.effects_changed"
  name (velocity_changed e) = "entity.velocity_changed"
  name (passengers_changed e) = "entity.passengers_changed"
  name (damaged e) = "entity.damaged"
  name (died e) = "entity.died"
  name (animated e) = "entity.animated"
  name (item_collected e) = "entity.item_collected"
