-- ===== src/World/Environment.antt =====
-- world/environment.go: the clock, the border, the weather, the difficulty and the spawn; the settings of
-- the simulation in Simulation. `clocks` of a time change is `none` where the source's slice is nil.
-- A position is the event's, which has the same fields.
pub mod Simulation
pub mod Bounds
use headless_minecraft.Base.{
  ℕ, ◌+◌, ◌-◌, String, Bool, true, false, not, ◌&&◌, Option, none, some, List, [], ◌∷◌, ℤ, pos, ltb,
  length, take, if◌then◌else◌, ◌==◌, nat_key,
}
use headless_minecraft.Base.Map.{Map}
use headless_minecraft.Event.{Collector, emit}
use headless_minecraft.Event.World.{
  BlockPosition, Clock, Border, WorldExplosionOccurred, WorldEventOccurred, WorldEvent,
}
use headless_minecraft.World.Floats.{Floats}

abbrev pub max_game_rules : ℕ
max_game_rules = 256

abbrev pub max_clocks : ℕ
max_clocks = 16

pub record Environment (F32 F64 : Type 0) : Type 0 where
  pub age : ℤ
  pub time_of_day : ℤ
  pub time_known : Bool
  pub clocks : List (Clock F32)
  pub dropped_clocks : ℕ
  pub border : Border F64
  pub raining : Bool
  pub rain_level : F32
  pub thunder_level : F32
  pub weather_known : Bool
  pub difficulty : String
  pub locked : Bool
  pub difficulty_known : Bool
  pub view_distance : ℤ
  pub simulation_distance : ℤ
  pub view_chunk_x : ℤ
  pub view_chunk_z : ℤ
  pub tick_rate : F32
  pub frozen : Bool
  pub simulation_known : Bool
  pub spawn : BlockPosition
  pub spawn_dimension : String
  pub spawn_yaw : F32
  pub spawn_pitch : F32
  pub spawn_angled : Bool
  pub spawn_known : Bool
  pub game_rules : Map String String
  pub dropped_game_rules : ℕ

abbrev pub Events : Type 0 → Type 0 → Type 0
Events F32 F64 = Collector (WorldEvent F32 F64)

abbrev pub new_border : {F64 : Type 0} → F64 → Border F64
new_border zero_64 = record {
  x = zero_64;
  z = zero_64;
  old_diameter = zero_64;
  new_diameter = zero_64;
  speed = pos 0;
  portal_boundary = pos 0;
  warning_time = pos 0;
  warning_blocks = pos 0;
  known = false;
}

-- The time of day that is given, or the one of a single clock.
abbrev pub time_given : {F32 : Type 0} → ℤ → Bool → Option (List (Clock F32)) → Option ℤ
time_given time_of_day true clocks = some time_of_day
time_given time_of_day false (some (clock ∷ [])) = some clock.total_ticks
time_given time_of_day false _ = none

module _ {F32 F64 : Type 0} where
  unfoldable pub new_environment : Floats F32 F64 → Environment F32 F64
  new_environment floats = record {
    age = pos 0;
    time_of_day = pos 0;
    time_known = false;
    clocks = [];
    dropped_clocks = 0;
    border = new_border floats.zero_64;
    raining = false;
    rain_level = floats.zero_32;
    thunder_level = floats.zero_32;
    weather_known = false;
    difficulty = "";
    locked = false;
    difficulty_known = false;
    view_distance = pos 0;
    simulation_distance = pos 0;
    view_chunk_x = pos 0;
    view_chunk_z = pos 0;
    tick_rate = floats.zero_32;
    frozen = false;
    simulation_known = false;
    spawn = record { x = pos 0; y = pos 0; z = pos 0 };
    spawn_dimension = "";
    spawn_yaw = floats.zero_32;
    spawn_pitch = floats.zero_32;
    spawn_angled = false;
    spawn_known = false;
    game_rules = [];
    dropped_game_rules = 0;
  }

  -- The clocks that are kept.
  unfoldable pub set_clocks : Environment F32 F64 → Option (List (Clock F32)) → Environment F32 F64
  set_clocks e none = e
  set_clocks e (some clocks) = record e {
    clocks = take max_clocks clocks;
    dropped_clocks = e.dropped_clocks + (length clocks - max_clocks);
  }

  unfoldable pub set_time : Environment F32 F64 → Option ℤ → Environment F32 F64
  set_time e none = e
  set_time e (some time_of_day) = record e { time_of_day = time_of_day; time_known = true }

  unfoldable pub time_changed :
      Environment F32 F64
      → Events F32 F64
      → ℤ
      → ℤ
      → Bool
      → Option (List (Clock F32))
      → Environment F32 F64 × Events F32 F64
  time_changed e c age time_of_day time_known clocks =
      let next =
        set_time (set_clocks (record e { age = age }) clocks)
          (time_given time_of_day time_known clocks) in
      (
        next,
        emit c (
            WorldEvent.time_changed (record {
              age = next.age;
              time_of_day = next.time_of_day;
              time_of_day_known = next.time_known;
              clocks = next.clocks;
            })),
      )

  -- `emitBorder`, after one of the mutators has set the border's fields.
  unfoldable pub emit_border :
      Environment F32 F64 → Events F32 F64 → Border F64 → Environment F32 F64 × Events F32 F64
  emit_border e c border =
      let known = record border { known = true } in
      (record e { border = known }, emit c (WorldEvent.border_changed known))

  abbrev pub border_initialized :
      Environment F32 F64 → Events F32 F64 → Border F64 → Environment F32 F64 × Events F32 F64
  border_initialized e c border = emit_border e c (record border { known = true })

  abbrev pub border_center :
      Environment F32 F64 → Events F32 F64 → F64 → F64 → Environment F32 F64 × Events F32 F64
  border_center e c x z = emit_border e c (record e.border { x = x; z = z })

  abbrev pub border_lerp :
      Environment F32 F64 → Events F32 F64 → F64 → F64 → ℤ → Environment F32 F64 × Events F32 F64
  border_lerp e c old size speed =
      emit_border e c (record e.border { old_diameter = old; new_diameter = size; speed = speed })

  abbrev pub border_size :
      Environment F32 F64 → Events F32 F64 → F64 → Environment F32 F64 × Events F32 F64
  border_size e c diameter =
      emit_border e c
        (record e.border { old_diameter = diameter; new_diameter = diameter; speed = pos 0 })

  abbrev pub border_warning_time :
      Environment F32 F64 → Events F32 F64 → ℤ → Environment F32 F64 × Events F32 F64
  border_warning_time e c seconds = emit_border e c (record e.border { warning_time = seconds })

  abbrev pub border_warning_blocks :
      Environment F32 F64 → Events F32 F64 → ℤ → Environment F32 F64 × Events F32 F64
  border_warning_blocks e c blocks = emit_border e c (record e.border { warning_blocks = blocks })
