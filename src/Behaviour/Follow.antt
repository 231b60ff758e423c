-- ===== src/Behaviour/Follow.antt =====
-- behaviour/follow.go: walking toward an entity, and away from one. `Geometry` is what the source calls of
-- minecraft-simulation's geom, with Go's operations on float64.
pub mod Stuck
use headless_minecraft.Base.{
  ℕ, ◌+◌, Bool, true, false, not, ◌&&◌, ◌||◌, Option, none, some, List, [], ◌∷◌, ℤ, pos, ltb, leb,
  if◌then◌else◌, ◌==◌, int_key,
}
use headless_minecraft.Safety.{Unicode, Text, Authorization, scope_observe, scope_move}
use headless_minecraft.Version.Actions.{Action}
use headless_minecraft.World.Entities.{Entity}
use headless_minecraft.Behaviour.{
  Ticked, Outcome, decided, running, complete, stopped, reason_blocked, reason_stuck,
  reason_world_changed, require_scopes,
}
use headless_minecraft.Behaviour.Observed.{
  Snapshot, get, at_least_zero, Built, built, refused, no_target, authorized,
}

pub record Vec3 (F64 : Type 0) : Type 0 where
  pub x : F64
  pub y : F64
  pub z : F64

pub record Geometry (F32 F64 : Type 0) : Type 0 where
  pub zero : F64
  pub add : F64 → F64 → F64
  pub sub : F64 → F64 → F64
  -- `a > b`
  pub above : F64 → F64 → Bool
  -- `a <= b`
  pub at_most : F64 → F64 → Bool
  pub progress_epsilon : F64
  pub horizontal_distance : Vec3 F64 → Vec3 F64 → F64
  pub toward : Vec3 F64 → Vec3 F64 → F64 → Vec3 F64
  pub add_vec : Vec3 F64 → Vec3 F64 → Vec3 F64
  pub look : Vec3 F64 → Vec3 F64 → F32 × F32
  pub away : Vec3 F64 → Vec3 F64 → F64 → Vec3 F64

-- A patience below zero is as none: the source asks whether it is positive first.
pub record Motion (F64 : Type 0) : Type 0 where
  pub step : F64
  pub arrive : F64
  pub give_up : F64
  pub eye : F64
  pub patience : ℕ

pub record Follow (F64 : Type 0) : Type 0 where
  pub target : ℤ
  pub motion : Motion F64
  pub closest : F64
  pub idle : ℕ
  pub started : Bool

pub record Flee (F64 : Type 0) : Type 0 where
  pub threat : ℤ
  pub motion : Motion F64
  pub safe : F64
  pub furthest : F64
  pub idle : ℕ
  pub started : Bool

module _ {F32 F64 : Type 0} (g : Geometry F32 F64) where
  unfoldable pub new_follow :
      {Err : Type 0} → Unicode → Authorization → Text → ℤ → Motion F64 → Built (Follow F64) Err
  new_follow u a endpoint target motion =
      authorized (require_scopes u a endpoint (scope_observe ∷ scope_move ∷ [])) (
        if target == pos 0
        then refused no_target
        else built (record {
          target = target;
          motion = motion;
          closest = g.zero;
          idle = 0;
          started = false;
        }))

  unfoldable pub new_flee :
      {Err : Type 0} → Unicode → Authorization → Text → ℤ → F64 → Motion F64 → Built (Flee F64) Err
  new_flee u a endpoint threat safe motion =
      authorized (require_scopes u a endpoint (scope_observe ∷ scope_move ∷ [])) (
        if threat == pos 0
        then refused no_target
        else built (record {
          threat = threat;
          motion = motion;
          safe = safe;
          furthest = g.zero;
          idle = 0;
          started = false;
        }))

module _ {F32 F64 Value : Type 0} where
  -- `bodyOf`
  unfoldable pub body_of : Snapshot F32 F64 Value → Option (Vec3 F64)
  body_of observed =
      if not observed.player.known || not observed.player.placed
      then none
      else some (record { x = observed.player.x; y = observed.player.y; z = observed.player.z })

  abbrev pub position : Entity F32 F64 Value → Vec3 F64
  position entity = record { x = entity.x; y = entity.y; z = entity.z }

module _ {F32 F64 : Type 0} (g : Geometry F32 F64) where
  -- `progress`: its outcome is always that of being stuck.
  unfoldable pub progress : Follow F64 → F64 → Follow F64 × Bool
  progress f distance =
      if not f.started || g.above (g.sub f.closest g.progress_epsilon) distance
      then (record f { started = true; closest = distance; idle = 0 }, false)
      else (
        record f { idle = f.idle + 1 },
        ltb 0 f.motion.patience && leb f.motion.patience (f.idle + 1),
      )

  -- The distance a flee has made, and whether it is cornered.
  unfoldable pub gain : Flee F64 → F64 → Flee F64 × Bool
  gain f distance =
      if not f.started || g.above distance (g.add f.furthest g.progress_epsilon)
      then (record f { started = true; furthest = distance; idle = 0 }, false)
      else (
        record f { idle = f.idle + 1 },
        ltb 0 f.motion.patience && leb f.motion.patience (f.idle + 1),
      )

module _ {F32 F64 Claim : Type 0} (g : Geometry F32 F64) where
  -- The one move of a tick: to where a step takes the body, looking at where it goes.
  abbrev pub step_toward : Motion F64 → Vec3 F64 → Vec3 F64 → Action F32 F64 Claim
  step_toward motion self target =
      let next = g.toward self target motion.step in
      let eyes = g.add_vec self (record { x = g.zero; y = motion.eye; z = g.zero }) in
      let turned = g.look eyes target in
      Action.move_look (record {
        x = next.x;
        y = next.y;
        z = next.z;
        yaw = turned.0;
        pitch = turned.1;
        on_ground = true;
        horizontal_collision = false;
      })

module _ {F32 F64 Claim Err : Type 0} (g : Geometry F32 F64) where
  -- `Tick` of a follow, once the body and the target are known.
  abbrev pub chase :
      Follow F64 → Vec3 F64 → Vec3 F64 → Follow F64 × Ticked (Action F32 F64 Claim) Err
  chase f self target =
      let distance = g.horizontal_distance self target in
      if g.above f.motion.give_up g.zero && g.above distance f.motion.give_up
      then (f, decided (stopped reason_blocked))
      else let (f, stop) = progress g f distance in
        if stop
        then (f, decided (stopped reason_stuck))
        else if g.at_most distance f.motion.arrive
        then (f, decided (running []))
        else (f, decided (running (step_toward g f.motion self target ∷ [])))

  abbrev pub run_from :
      Flee F64 → Vec3 F64 → Vec3 F64 → Flee F64 × Ticked (Action F32 F64 Claim) Err
  run_from f self threat =
      let distance = g.horizontal_distance self threat in
      if g.at_most f.safe distance
      then (f, decided (complete []))
      else let (f, cornered) = gain g f distance in
        if cornered
        then (f, decided (stopped reason_stuck))
        else (f, decided (running (step_toward g f.motion self (g.away self threat f.safe) ∷ [])))

module _ {F32 F64 Value Claim Err : Type 0} (g : Geometry F32 F64) where
  -- `Tick` of a follow.
  unfoldable pub follow_tick :
      Follow F64 → Snapshot F32 F64 Value → Follow F64 × Ticked (Action F32 F64 Claim) Err
  follow_tick f observed = elim (body_of observed) [
    | none ↦ (f, decided (running []))
    | some self ↦ elim (get observed.entities f.target) [
      | none ↦ (f, decided (stopped reason_world_changed))
      | some entity ↦ chase g f self (position entity)
    ]
  ]

  -- `Tick` of a flee.
  unfoldable pub flee_tick :
      Flee F64 → Snapshot F32 F64 Value → Flee F64 × Ticked (Action F32 F64 Claim) Err
  flee_tick f observed = elim (body_of observed) [
    | none ↦ (f, decided (running []))
    | some self ↦ elim (get observed.entities f.threat) [
      | none ↦ (f, decided (complete []))
      | some entity ↦ run_from g f self (position entity)
    ]
  ]
