-- ===== src/Event/Player.antt =====
-- event/player.go: the events of the player domain, one record for each struct of two fields or more;
-- an event of one field carries it in its constructor. Floats are types of their own.
use headless_minecraft.Base.{ℕ, ℤ, String, Bool}
use headless_minecraft.Event.Damage.{Damage}

pub record PlayerSpawned : Type 0 where
  pub entity_id : ℤ
  pub dimension : String
  pub game_mode : ℕ

pub record PlayerMoved (F32 F64 : Type 0) : Type 0 where
  pub x : F64
  pub y : F64
  pub z : F64
  pub yaw : F32
  pub pitch : F32
  pub relative : Bool

pub record PlayerHealthChanged (F32 : Type 0) : Type 0 where
  pub health : F32
  pub food : ℤ
  pub saturation : F32

pub record PlayerDied : Type 0 where
  pub killer_id : ℤ
  pub attributed : Bool

pub record PlayerExperienceChanged (F32 : Type 0) : Type 0 where
  pub bar : F32
  pub level : ℤ
  pub total : ℤ

pub record PlayerAbilitiesChanged (F32 : Type 0) : Type 0 where
  pub flags : ℤ
  pub flying_speed : F32
  pub walking_speed : F32

pub record PlayerRespawned : Type 0 where
  pub dimension : String
  pub game_mode : ℕ

pub record PlayerEffectsChanged : Type 0 where
  pub effect_id : ℤ
  pub amplifier : ℤ
  pub duration : ℤ
  pub removed : Bool

pub record PlayerCooldownChanged : Type 0 where
  pub group : String
  pub ticks : ℤ

pub data PlayerEvent (F32 F64 : Type 0) : Type 0 where
  spawned : PlayerSpawned → PlayerEvent F32 F64
  moved : PlayerMoved F32 F64 → PlayerEvent F32 F64
  health_changed : PlayerHealthChanged F32 → PlayerEvent F32 F64
  damaged : Damage F64 → PlayerEvent F32 F64
  died : PlayerDied → PlayerEvent F32 F64
  experience_changed : PlayerExperienceChanged F32 → PlayerEvent F32 F64
  abilities_changed : PlayerAbilitiesChanged F32 → PlayerEvent F32 F64
  game_mode_changed : ℕ → PlayerEvent F32 F64
  respawned : PlayerRespawned → PlayerEvent F32 F64
  held_slot_changed : ℤ → PlayerEvent F32 F64
  effects_changed : PlayerEffectsChanged → PlayerEvent F32 F64
  cooldown_changed : PlayerCooldownChanged → PlayerEvent F32 F64

module _ {F32 F64 : Type 0} where
  unfoldable pub name : PlayerEvent F32 F64 → String
  name (spawned e) = "player.spawned"
  name (moved e) = "player.moved"
  name (health_changed e) = "player.health_changed"
  name (damaged e) = "player.damaged"
  name (died e) = "player.died"
  name (experience_changed e) = "player.experience_changed"
  name (abilities_changed e) = "player.abilities_changed"
  name (game_mode_changed e) = "player.game_mode_changed"
  name (respawned e) = "player.respawned"
  name (held_slot_changed e) = "player.held_slot_changed"
  name (effects_changed e) = "player.effects_changed"
  name (cooldown_changed e) = "player.cooldown_changed"
