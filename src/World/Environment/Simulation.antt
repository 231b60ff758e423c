-- ===== src/World/Environment/Simulation.antt =====
-- world/environment.go: the weather, the difficulty, the spawn, what happens at a place, and the settings
-- that the server simulates under. A Go map of rules is visited in the order of the list.
use headless_minecraft.Base.{
  ◌+◌, String, Bool, true, not, ◌&&◌, List, [], ◌∷◌, ◌++◌, ℤ, leb, if◌then◌else◌, string_key,
  str_leb,
}
use headless_minecraft.Base.Map
use headless_minecraft.Base.Sort.{sort}
use headless_minecraft.Event.{emit}
use headless_minecraft.Event.World.{
  BlockPosition, WorldExplosionOccurred, WorldEventOccurred, WorldEvent,
}
use headless_minecraft.World.Floats.{Floats}
use headless_minecraft.World.Environment.{Environment, Events, max_game_rules}

module _ {F32 F64 : Type 0} where
  unfoldable pub emit_weather :
      Environment F32 F64 → Events F32 F64 → Environment F32 F64 × Events F32 F64
  emit_weather e c = (
    e,
    emit c (
        WorldEvent.weather_changed (record {
          raining = e.raining;
          rain_level = e.rain_level;
          thunder_level = e.thunder_level;
        })),
  )

  unfoldable pub weather_changed :
      Floats F32 F64
      → Environment F32 F64
      → Events F32 F64
      → Bool
      → Environment F32 F64 × Events F32 F64
  weather_changed floats e c raining =
      let next = record e { raining = raining; weather_known = true } in
      emit_weather (if raining then next else record next { rain_level = floats.zero_32 }) c

  unfoldable pub rain_level_changed :
      Environment F32 F64 → Events F32 F64 → F32 → Environment F32 F64 × Events F32 F64
  rain_level_changed e c level =
      emit_weather (record e { rain_level = level; weather_known = true }) c

  unfoldable pub thunder_level_changed :
      Environment F32 F64 → Events F32 F64 → F32 → Environment F32 F64 × Events F32 F64
  thunder_level_changed e c level =
      emit_weather (record e { thunder_level = level; weather_known = true }) c

  unfoldable pub difficulty_changed :
      Environment F32 F64 → Events F32 F64 → String → Bool → Environment F32 F64 × Events F32 F64
  difficulty_changed e c difficulty locked = (
    record e { difficulty = difficulty; locked = locked; difficulty_known = true },
    emit c (WorldEvent.difficulty_changed (record { difficulty = difficulty; locked = locked })),
  )

  unfoldable pub spawn_changed :
      Environment F32 F64
      → Events F32 F64
      → BlockPosition
      → String
      → F32
      → F32
      → Bool
      → Environment F32 F64 × Events F32 F64
  spawn_changed e c position dimension yaw pitch angled = (
    record e {
      spawn = position;
      spawn_dimension = dimension;
      spawn_known = true;
      spawn_yaw = yaw;
      spawn_pitch = pitch;
      spawn_angled = angled;
    },
    emit c (
        WorldEvent.spawn_changed (record {
          position = position;
          dimension = dimension;
          yaw = yaw;
          pitch = pitch;
          angled = angled;
        })),
  )

  unfoldable pub explosion :
      Environment F32 F64
      → Events F32 F64
      → WorldExplosionOccurred F32 F64
      → Environment F32 F64 × Events F32 F64
  explosion e c occurred = (e, emit c (WorldEvent.explosion_occurred occurred))

  unfoldable pub world_event :
      Environment F32 F64
      → Events F32 F64
      → WorldEventOccurred
      → Environment F32 F64 × Events F32 F64
  world_event e c occurred = (e, emit c (WorldEvent.event_occurred occurred))

  unfoldable pub emit_simulation :
      Environment F32 F64 → Events F32 F64 → List String → Environment F32 F64 × Events F32 F64
  emit_simulation e c rule_keys = (
    record e { simulation_known = true },
    emit c (
        WorldEvent.simulation_settings_changed (record {
          view_distance = e.view_distance;
          simulation_distance = e.simulation_distance;
          view_chunk_x = e.view_chunk_x;
          view_chunk_z = e.view_chunk_z;
          tick_rate = e.tick_rate;
          frozen = e.frozen;
          rule_keys = rule_keys;
        })),
  )

  abbrev pub view_distance_changed :
      Environment F32 F64 → Events F32 F64 → ℤ → Environment F32 F64 × Events F32 F64
  view_distance_changed e c chunks = emit_simulation (record e { view_distance = chunks }) c []

  abbrev pub simulation_distance_changed :
      Environment F32 F64 → Events F32 F64 → ℤ → Environment F32 F64 × Events F32 F64
  simulation_distance_changed e c chunks =
      emit_simulation (record e { simulation_distance = chunks }) c []

  abbrev pub view_center_changed :
      Environment F32 F64 → Events F32 F64 → ℤ → ℤ → Environment F32 F64 × Events F32 F64
  view_center_changed e c x z =
      emit_simulation (record e { view_chunk_x = x; view_chunk_z = z }) c []

  abbrev pub ticking_state_changed :
      Environment F32 F64 → Events F32 F64 → F32 → Bool → Environment F32 F64 × Events F32 F64
  ticking_state_changed e c rate frozen =
      emit_simulation (record e { tick_rate = rate; frozen = frozen }) c []

  -- One rule: kept, with its key, or dropped by the bound.
  unfoldable pub rule_step :
      Environment F32 F64 × List String → String × String → Environment F32 F64 × List String
  rule_step (e, keys) (name, value) =
      if not (Map.contains name e.game_rules) && leb max_game_rules (Map.size e.game_rules)
      then (record e { dropped_game_rules = e.dropped_game_rules + 1 }, keys)
      else (record e { game_rules = Map.insert name value e.game_rules }, keys ++ name ∷ [])

  unfoldable pub rule_loop :
      Environment F32 F64 × List String → List (String × String) → Environment F32 F64 × List String
  unfolding rule_step
  rule_loop so_far [] = so_far
  rule_loop so_far (rule ∷ rules) = rule_loop (rule_step so_far rule) rules

  unfoldable pub emit_rules :
      Environment F32 F64 × List String → Events F32 F64 → Environment F32 F64 × Events F32 F64
  emit_rules (e, []) c = (e, c)
  emit_rules (e, key ∷ keys) c = emit_simulation e c (sort str_leb (key ∷ keys))

  unfoldable pub game_rules_changed :
      Environment F32 F64
      → Events F32 F64
      → List (String × String)
      → Environment F32 F64 × Events F32 F64
  unfolding rule_loop emit_rules
  game_rules_changed e c rules = emit_rules (rule_loop (e, []) rules) c
