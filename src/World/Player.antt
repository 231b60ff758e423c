-- ===== src/World/Player.antt =====
-- world/player.go: what the client knows of the local player.

mod Tests
use headless_minecraft.Base.{
  [], ℕ, String, Bool, true, false, ◌||◌, Option, none, some, ℤ, pos, int_leb, if◌then◌else◌,
  int_key, string_key,
}
use headless_minecraft.Base.Map
use headless_minecraft.Base.Map.{Map}
use headless_minecraft.Event.{Collector, emit}
use headless_minecraft.Event.Damage.{Damage}
use headless_minecraft.Event.Player.{PlayerEvent}
use headless_minecraft.World.Floats.{Floats}

pub record Effect : Type 0 where
  pub id : ℤ
  pub amplifier : ℤ
  pub duration : ℤ

pub record Player (F32 F64 : Type 0) : Type 0 where
  pub entity_id : ℤ
  pub known : Bool
  pub dimension : String
  pub game_mode : ℕ
  pub x : F64
  pub y : F64
  pub z : F64
  pub yaw : F32
  pub pitch : F32
  pub placed : Bool
  pub health : F32
  pub food : ℤ
  pub saturation : F32
  pub dead : Bool
  pub experience_bar : F32
  pub level : ℤ
  pub total_experience : ℤ
  pub ability_flags : ℤ
  pub flying_speed : F32
  pub walking_speed : F32
  pub held_slot : ℤ
  pub effects : Map ℤ Effect
  pub cooldowns : Map String ℤ

pub record Relative : Type 0 where
  pub x : Bool
  pub y : Bool
  pub z : Bool
  pub yaw : Bool
  pub pitch : Bool

abbrev pub any : Relative → Bool
any r = r.x || r.y || r.z || r.yaw || r.pitch

abbrev pub Events : Type 0 → Type 0 → Type 0
Events F32 F64 = Collector (PlayerEvent F32 F64)

module _ {F32 F64 : Type 0} where
  unfoldable pub new_player : Floats F32 F64 → Player F32 F64
  new_player floats = record {
    entity_id = pos 0;
    known = false;
    dimension = "";
    game_mode = 0;
    x = floats.zero_64;
    y = floats.zero_64;
    z = floats.zero_64;
    yaw = floats.zero_32;
    pitch = floats.zero_32;
    placed = false;
    health = floats.zero_32;
    food = pos 0;
    saturation = floats.zero_32;
    dead = false;
    experience_bar = floats.zero_32;
    level = pos 0;
    total_experience = pos 0;
    ability_flags = pos 0;
    flying_speed = floats.zero_32;
    walking_speed = floats.zero_32;
    held_slot = pos 0;
    effects = [];
    cooldowns = [];
  }

  -- `EntityID`
  unfoldable pub local_id : Player F32 F64 → ℤ × Bool
  local_id p = (p.entity_id, p.known)

  unfoldable pub login :
      Player F32 F64 → Events F32 F64 → ℤ → String → ℕ → Player F32 F64 × Events F32 F64
  unfolding emit
  login p c entity_id dimension game_mode = (
    record p { entity_id = entity_id; known = true; dimension = dimension; game_mode = game_mode },
    emit c (
        PlayerEvent.spawned
          (record { entity_id = entity_id; dimension = dimension; game_mode = game_mode })),
  )

  unfoldable pub move :
      Floats F32 F64
      → Player F32 F64
      → Events F32 F64
      → F64
      → F64
      → F64
      → F32
      → F32
      → Relative
      → Player F32 F64 × Events F32 F64
  unfolding emit
  move floats p c x y z yaw pitch relative =
      let to_x = if relative.x then floats.add_64 x p.x else x in
      let to_y = if relative.y then floats.add_64 y p.y else y in
      let to_z = if relative.z then floats.add_64 z p.z else z in
      let to_yaw = if relative.yaw then floats.add_32 yaw p.yaw else yaw in
      let to_pitch = if relative.pitch then floats.add_32 pitch p.pitch else pitch in
      (
        record p { x = to_x; y = to_y; z = to_z; yaw = to_yaw; pitch = to_pitch; placed = true },
        emit c (
            PlayerEvent.moved (record {
              x = to_x;
              y = to_y;
              z = to_z;
              yaw = to_yaw;
              pitch = to_pitch;
              relative = any relative;
            })),
      )

  unfoldable pub look :
      Floats F32 F64
      → Player F32 F64
      → Events F32 F64
      → F32
      → F32
      → Relative
      → Player F32 F64 × Events F32 F64
  unfolding move
  look floats p c yaw pitch relative =
      move floats p c p.x p.y p.z yaw pitch
        (record { x = false; y = false; z = false; yaw = relative.yaw; pitch = relative.pitch })

  unfoldable pub set_health :
      Player F32 F64 → Events F32 F64 → F32 → ℤ → F32 → Player F32 F64 × Events F32 F64
  unfolding emit
  set_health p c health food saturation = (
    record p { health = health; food = food; saturation = saturation },
    emit c (
        PlayerEvent.health_changed
          (record { health = health; food = food; saturation = saturation })),
  )

  unfoldable pub damaged :
      Player F32 F64 → Events F32 F64 → Damage F64 → Player F32 F64 × Events F32 F64
  unfolding emit
  damaged p c damage = (p, emit c (PlayerEvent.damaged damage))

  unfoldable pub died : Player F32 F64 → Events F32 F64 → ℤ → Bool → Player F32 F64 × Events F32 F64
  unfolding emit
  died p c killer_id attributed = if p.dead then (p, c) else (
    record p { dead = true },
    emit c (PlayerEvent.died (record { killer_id = killer_id; attributed = attributed })),
  )

  unfoldable pub experience :
      Player F32 F64 → Events F32 F64 → F32 → ℤ → ℤ → Player F32 F64 × Events F32 F64
  unfolding emit
  experience p c bar level total = (
    record p { experience_bar = bar; level = level; total_experience = total },
    emit c (PlayerEvent.experience_changed (record { bar = bar; level = level; total = total })),
  )

  unfoldable pub abilities :
      Player F32 F64 → Events F32 F64 → ℤ → F32 → F32 → Player F32 F64 × Events F32 F64
  unfolding emit
  abilities p c flags flying walking = (
    record p { ability_flags = flags; flying_speed = flying; walking_speed = walking },
    emit c (
        PlayerEvent.abilities_changed
          (record { flags = flags; flying_speed = flying; walking_speed = walking })),
  )

  unfoldable pub set_game_mode :
      Player F32 F64 → Events F32 F64 → ℕ → Player F32 F64 × Events F32 F64
  unfolding emit
  set_game_mode p c mode =
      (record p { game_mode = mode }, emit c (PlayerEvent.game_mode_changed mode))

  unfoldable pub respawn :
      Player F32 F64 → Events F32 F64 → String → ℕ → Player F32 F64 × Events F32 F64
  unfolding emit
  respawn p c dimension game_mode = (
    record p {
      dimension = dimension;
      game_mode = game_mode;
      placed = false;
      dead = false;
      effects = [];
    },
    emit c (PlayerEvent.respawned (record { dimension = dimension; game_mode = game_mode })),
  )

  unfoldable pub set_held_slot :
      Player F32 F64 → Events F32 F64 → ℤ → Player F32 F64 × Events F32 F64
  unfolding emit
  set_held_slot p c slot =
      (record p { held_slot = slot }, emit c (PlayerEvent.held_slot_changed slot))

  unfoldable pub effect_applied :
      Player F32 F64 → Events F32 F64 → ℤ → ℤ → ℤ → Player F32 F64 × Events F32 F64
  unfolding emit
  effect_applied p c id amplifier duration = (
    record p {
      effects =
          Map.insert id (record { id = id; amplifier = amplifier; duration = duration }) p.effects;
    },
    emit c (
        PlayerEvent.effects_changed
          (record { effect_id = id; amplifier = amplifier; duration = duration; removed = false })),
  )

  unfoldable pub effect_removed :
      Player F32 F64 → Events F32 F64 → ℤ → Player F32 F64 × Events F32 F64
  unfolding emit
  effect_removed p c id = (
    record p { effects = Map.delete id p.effects },
    emit c (
        PlayerEvent.effects_changed
          (record { effect_id = id; amplifier = pos 0; duration = pos 0; removed = true })),
  )

  unfoldable pub cooldown :
      Player F32 F64 → Events F32 F64 → String → ℤ → Player F32 F64 × Events F32 F64
  unfolding emit
  cooldown p c group ticks = (
    record p {
      cooldowns =
          if int_leb ticks (pos 0)
          then Map.delete group p.cooldowns
          else Map.insert group ticks p.cooldowns;
    },
    emit c (PlayerEvent.cooldown_changed (record { group = group; ticks = ticks })),
  )
