-- ===== src/World/Environment/Bounds.antt =====
-- world/environment.go: the bounds on clocks and game rules hold in every history.
use headless_minecraft.Base.{
  ◌≡◌, ◌≤◌, String, Bool, true, false, Option, none, some, List, [], ◌∷◌, ℤ, length, length-take,
  arith, refl, string_key,
}
use headless_minecraft.Base.Map
use headless_minecraft.Base.Map.{size-insert}
use headless_minecraft.Event.World.{
  BlockPosition, Clock, Border, WorldExplosionOccurred, WorldEventOccurred,
}
use headless_minecraft.World.Floats.{Floats}
use headless_minecraft.World.Environment.{
  Environment, Events, set_clocks, set_time, time_given, time_changed, emit_border,
  border_initialized, border_center, border_lerp, border_size, border_warning_time,
  border_warning_blocks, max_clocks, max_game_rules,
}
use headless_minecraft.World.Environment.Simulation.{
  weather_changed, rain_level_changed, thunder_level_changed, emit_weather, difficulty_changed,
  spawn_changed, explosion, world_event, emit_simulation, view_distance_changed,
  simulation_distance_changed, view_center_changed, ticking_state_changed, rule_step, rule_loop,
  emit_rules, game_rules_changed,
}

-- The mutators of the store, with their arguments.
pub data Mutation (F32 F64 : Type 0) : Type 0 where
  changes_time : ℤ → ℤ → Bool → Option (List (Clock F32)) → Mutation F32 F64
  initializes_border : Border F64 → Mutation F32 F64
  moves_border : F64 → F64 → Mutation F32 F64
  resizes_border : F64 → Mutation F32 F64
  lerps_border : F64 → F64 → ℤ → Mutation F32 F64
  sets_warning_time : ℤ → Mutation F32 F64
  sets_warning_blocks : ℤ → Mutation F32 F64
  changes_weather : Bool → Mutation F32 F64
  changes_rain : F32 → Mutation F32 F64
  changes_thunder : F32 → Mutation F32 F64
  changes_difficulty : String → Bool → Mutation F32 F64
  changes_spawn : BlockPosition → String → F32 → F32 → Bool → Mutation F32 F64
  explodes : WorldExplosionOccurred F32 F64 → Mutation F32 F64
  occurs : WorldEventOccurred → Mutation F32 F64
  changes_view_distance : ℤ → Mutation F32 F64
  changes_simulation_distance : ℤ → Mutation F32 F64
  changes_view_center : ℤ → ℤ → Mutation F32 F64
  changes_ticking : F32 → Bool → Mutation F32 F64
  changes_rules : List (String × String) → Mutation F32 F64

module _ {F32 F64 : Type 0} where
  pub record IsBounded (e : Environment F32 F64) : Type 0 where
    pub clocks : length e.clocks ≤ max_clocks
    pub rules : Map.size e.game_rules ≤ max_game_rules

  set_clocks-IsBounded :
      (e : Environment F32 F64) (clocks : Option (List (Clock F32)))
      → IsBounded e
      → IsBounded (set_clocks e clocks)
  unfolding set_clocks
  set_clocks-IsBounded e none v = v
  set_clocks-IsBounded e (some clocks) v = record {
    clocks = rw (length-take max_clocks clocks) (omega arith);
    rules = v.rules;
  }

  set_time-IsBounded :
      (e : Environment F32 F64) (time : Option ℤ) → IsBounded e → IsBounded (set_time e time)
  unfolding set_time
  set_time-IsBounded e none v = v
  set_time-IsBounded e (some time) v = record { clocks = v.clocks; rules = v.rules }

  rule_loop-IsBounded :
      (e : Environment F32 F64) (keys : List String) (rules : List (String × String))
      → IsBounded e
      → IsBounded (rule_loop (e, keys) rules).0
  unfolding rule_loop rule_step
  rule_loop-IsBounded e keys [] v = v
  rule_loop-IsBounded e keys ((name, value) ∷ rules) v =
      let t = rule_step (e, keys) (name, value) in
      rule_loop-IsBounded t.0 t.1 rules
        (ground (arith, v.clocks, v.rules, size-insert name value e.game_rules))

  emit_rules-IsBounded :
      (e : Environment F32 F64) (keys : List String) (c : Events F32 F64)
      → IsBounded e
      → IsBounded (emit_rules (e, keys) c).0
  unfolding emit_rules emit_simulation
  emit_rules-IsBounded e [] c v = v
  emit_rules-IsBounded e (key ∷ keys) c v = record { clocks = v.clocks; rules = v.rules }

  -- A change that leaves the clocks and the rules alone.
  kept :
      {e next : Environment F32 F64}
      → IsBounded e
      → next.clocks ≡ e.clocks
      → next.game_rules ≡ e.game_rules
      → IsBounded next
  kept v clocks rules = record { clocks = rw clocks v.clocks; rules = rw rules v.rules }

module _ {F32 F64 : Type 0} (floats : Floats F32 F64) where
  pub mutate :
      Environment F32 F64 → Events F32 F64 → Mutation F32 F64 → Environment F32 F64 × Events F32 F64
  mutate e c (changes_time age time known clocks) = time_changed e c age time known clocks
  mutate e c (initializes_border border) = border_initialized e c border
  mutate e c (moves_border x z) = border_center e c x z
  mutate e c (resizes_border diameter) = border_size e c diameter
  mutate e c (lerps_border old size speed) = border_lerp e c old size speed
  mutate e c (sets_warning_time seconds) = border_warning_time e c seconds
  mutate e c (sets_warning_blocks blocks) = border_warning_blocks e c blocks
  mutate e c (changes_weather raining) = weather_changed floats e c raining
  mutate e c (changes_rain level) = rain_level_changed e c level
  mutate e c (changes_thunder level) = thunder_level_changed e c level
  mutate e c (changes_difficulty difficulty locked) = difficulty_changed e c difficulty locked
  mutate e c (changes_spawn position dimension yaw pitch angled) =
      spawn_changed e c position dimension yaw pitch angled
  mutate e c (explodes occurred) = explosion e c occurred
  mutate e c (occurs occurred) = world_event e c occurred
  mutate e c (changes_view_distance chunks) = view_distance_changed e c chunks
  mutate e c (changes_simulation_distance chunks) = simulation_distance_changed e c chunks
  mutate e c (changes_view_center x z) = view_center_changed e c x z
  mutate e c (changes_ticking rate frozen) = ticking_state_changed e c rate frozen
  mutate e c (changes_rules rules) = game_rules_changed e c rules

  pub environment_history :
      Environment F32 F64
      → Events F32 F64
      → List (Mutation F32 F64)
      → Environment F32 F64 × Events F32 F64
  environment_history e c [] = (e, c)
  environment_history e c (m ∷ ms) = environment_history (mutate e c m).0 (mutate e c m).1 ms

  mutate-IsBounded :
      (e : Environment F32 F64) (c : Events F32 F64) (m : Mutation F32 F64)
      → IsBounded e
      → IsBounded (mutate e c m).0
  unfolding mutate time_changed emit_border weather_changed rain_level_changed thunder_level_changed
      emit_weather difficulty_changed spawn_changed explosion world_event emit_simulation
      game_rules_changed
  mutate-IsBounded e c (changes_time age time known clocks) v =
      let aged = record e { age = age } in
      set_time-IsBounded (set_clocks aged clocks) (time_given time known clocks)
        (set_clocks-IsBounded aged clocks (kept v refl refl))
  mutate-IsBounded e c (initializes_border border) v = kept v refl refl
  mutate-IsBounded e c (moves_border x z) v = kept v refl refl
  mutate-IsBounded e c (resizes_border diameter) v = kept v refl refl
  mutate-IsBounded e c (lerps_border old size speed) v = kept v refl refl
  mutate-IsBounded e c (sets_warning_time seconds) v = kept v refl refl
  mutate-IsBounded e c (sets_warning_blocks blocks) v = kept v refl refl
  mutate-IsBounded e c (changes_weather true) v = kept v refl refl
  mutate-IsBounded e c (changes_weather false) v = kept v refl refl
  mutate-IsBounded e c (changes_rain level) v = kept v refl refl
  mutate-IsBounded e c (changes_thunder level) v = kept v refl refl
  mutate-IsBounded e c (changes_difficulty difficulty locked) v = kept v refl refl
  mutate-IsBounded e c (changes_spawn position dimension yaw pitch angled) v = kept v refl refl
  mutate-IsBounded e c (explodes occurred) v = v
  mutate-IsBounded e c (occurs occurred) v = v
  mutate-IsBounded e c (changes_view_distance chunks) v = kept v refl refl
  mutate-IsBounded e c (changes_simulation_distance chunks) v = kept v refl refl
  mutate-IsBounded e c (changes_view_center x z) v = kept v refl refl
  mutate-IsBounded e c (changes_ticking rate frozen) v = kept v refl refl
  mutate-IsBounded e c (changes_rules rules) v =
      let t = rule_loop (e, []) rules in
      emit_rules-IsBounded t.0 t.1 c (rule_loop-IsBounded e [] rules v)

  -- An environment within the bounds is within them after any history of calls.
  environment_history-IsBounded :
      (e : Environment F32 F64) (c : Events F32 F64) (ms : List (Mutation F32 F64))
      → IsBounded e
      → IsBounded (environment_history e c ms).0
  unfolding environment_history
  environment_history-IsBounded e c [] v = v
  environment_history-IsBounded e c (m ∷ ms) v =
      environment_history-IsBounded (mutate e c m).0 (mutate e c m).1 ms (mutate-IsBounded e c m v)
