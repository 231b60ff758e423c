-- ===== src/Event/World.antt =====
-- event/world.go: the events of the world domain, one record for each struct of two fields or more;
-- an event of one field carries it in its constructor. Floats are types of their own.
use headless_minecraft.Base.{ℕ, ℤ, String, Bool, List}

pub record BlockPosition : Type 0 where
  pub x : ℤ
  pub y : ℤ
  pub z : ℤ

pub record Clock (F32 : Type 0) : Type 0 where
  pub id : ℤ
  pub total_ticks : ℤ
  pub partial_tick : F32
  pub rate : F32

pub record Border (F64 : Type 0) : Type 0 where
  pub x : F64
  pub z : F64
  pub old_diameter : F64
  pub new_diameter : F64
  pub speed : ℤ
  pub portal_boundary : ℤ
  pub warning_time : ℤ
  pub warning_blocks : ℤ
  pub known : Bool

pub record WorldChunkLoaded : Type 0 where
  pub x : ℤ
  pub z : ℤ
  pub sections : ℕ

pub record WorldChunkUnloaded : Type 0 where
  pub x : ℤ
  pub z : ℤ

pub record WorldBlocksChanged : Type 0 where
  pub positions : List BlockPosition
  pub states : List ℕ
  pub dropped : ℕ

pub record WorldBlockEntityChanged : Type 0 where
  pub x : ℤ
  pub y : ℤ
  pub z : ℤ

pub record WorldLightChanged : Type 0 where
  pub x : ℤ
  pub z : ℤ

pub record WorldTimeChanged (F32 : Type 0) : Type 0 where
  pub age : ℤ
  pub time_of_day : ℤ
  pub time_of_day_known : Bool
  pub clocks : List (Clock F32)

pub record WorldWeatherChanged (F32 : Type 0) : Type 0 where
  pub raining : Bool
  pub rain_level : F32
  pub thunder_level : F32

pub record WorldDifficultyChanged : Type 0 where
  pub difficulty : String
  pub locked : Bool

pub record WorldExplosionOccurred (F32 F64 : Type 0) : Type 0 where
  pub x : F64
  pub y : F64
  pub z : F64
  pub radius : F32
  pub knockback_x : F64
  pub knockback_y : F64
  pub knockback_z : F64
  pub knocked : Bool

pub record WorldEventOccurred : Type 0 where
  pub effect_id : ℤ
  pub position : BlockPosition
  pub event_data : ℤ
  pub global : Bool

pub record WorldSimulationSettingsChanged (F32 : Type 0) : Type 0 where
  pub view_distance : ℤ
  pub simulation_distance : ℤ
  pub view_chunk_x : ℤ
  pub view_chunk_z : ℤ
  pub tick_rate : F32
  pub frozen : Bool
  pub rule_keys : List String

pub record WorldSpawnChanged (F32 : Type 0) : Type 0 where
  pub position : BlockPosition
  pub dimension : String
  pub yaw : F32
  pub pitch : F32
  pub angled : Bool

pub data WorldEvent (F32 F64 : Type 0) : Type 0 where
  chunk_loaded : WorldChunkLoaded → WorldEvent F32 F64
  chunk_unloaded : WorldChunkUnloaded → WorldEvent F32 F64
  blocks_changed : WorldBlocksChanged → WorldEvent F32 F64
  block_entity_changed : WorldBlockEntityChanged → WorldEvent F32 F64
  light_changed : WorldLightChanged → WorldEvent F32 F64
  time_changed : WorldTimeChanged F32 → WorldEvent F32 F64
  border_changed : Border F64 → WorldEvent F32 F64
  weather_changed : WorldWeatherChanged F32 → WorldEvent F32 F64
  difficulty_changed : WorldDifficultyChanged → WorldEvent F32 F64
  explosion_occurred : WorldExplosionOccurred F32 F64 → WorldEvent F32 F64
  event_occurred : WorldEventOccurred → WorldEvent F32 F64
  simulation_settings_changed : WorldSimulationSettingsChanged F32 → WorldEvent F32 F64
  spawn_changed : WorldSpawnChanged F32 → WorldEvent F32 F64

module _ {F32 F64 : Type 0} where
  unfoldable pub name : WorldEvent F32 F64 → String
  name (chunk_loaded e) = "world.chunk_loaded"
  name (chunk_unloaded e) = "world.chunk_unloaded"
  name (blocks_changed e) = "world.blocks_changed"
  name (block_entity_changed e) = "world.block_entity_changed"
  name (light_changed e) = "world.light_changed"
  name (time_changed e) = "world.time_changed"
  name (border_changed e) = "world.border_changed"
  name (weather_changed e) = "world.weather_changed"
  name (difficulty_changed e) = "world.difficulty_changed"
  name (explosion_occurred e) = "world.explosion_occurred"
  name (event_occurred e) = "world.event_occurred"
  name (simulation_settings_changed e) = "world.simulation_settings_changed"
  name (spawn_changed e) = "world.spawn_changed"
