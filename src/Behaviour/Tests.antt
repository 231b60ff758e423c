-- ===== src/Behaviour/Tests.antt =====
-- Concrete runs of behaviour/, with numbers for floats.
use headless_minecraft.Base.{
  ℕ, ◌+◌, ◌-◌, ◌*◌, ◌≡◌, refl, arith, true, false, none, some, List, [], ◌∷◌, ◌++◌, map, pos, keep,
  leb, ltb, drop, if◌then◌else◌, String,
}
use headless_minecraft.Base.Map.{lookup}
use headless_minecraft.World.Floats.{Floats}
use headless_minecraft.World.Player.{new_player}
use headless_minecraft.World.Entities.{new_entities, new_entity}
use headless_minecraft.Version.Actions.{Action, BlockPos, Face, main_hand, off_hand}
use headless_minecraft.Behaviour.{
  Behaviour, run, completed, has_ended, ended, status_stopped, reason_failed, reason_stuck,
  reason_out_of_resources,
}
use headless_minecraft.Behaviour.Observed.{Snapshot, known_ticks, built}
use headless_minecraft.Behaviour.Sequence.{new_sequence, sequence_tick, Sequence}
use headless_minecraft.Behaviour.Sequence.Stages.{run_stages, run-new_sequence}
use headless_minecraft.Behaviour.Dig.{Dig, unstarted, dig_tick, start_dig, finish_dig}
use headless_minecraft.Behaviour.Dig.Ticks.{dig_run, run-unstarted}
use headless_minecraft.Behaviour.Eat.{unfed, eat_tick}
use headless_minecraft.Behaviour.Eat.Meals.{eat_run, IsMeal, run-IsMeal, run_ends}
use headless_minecraft.Behaviour.Block.{Block}
use headless_minecraft.Behaviour.Block.Shields.{
  Call, lowers, ticks, block_steps, IsToggled, block_steps-IsToggled,
}
use headless_minecraft.Behaviour.Fish.{Fish, Tick, uncast, fish_tick, set_bobber}
use headless_minecraft.Behaviour.Fish.Casts.{fish_run}
use headless_minecraft.Behaviour.Fish.Reels.{uses, uses-fish_run}
use headless_minecraft.Behaviour.Fish.Bobbers.{run_recast}
use headless_minecraft.Behaviour.Build.{Edge, place, pillar, walk, placements, unbuilt}
use headless_minecraft.Behaviour.Build.Cells.{IsLaid}
use headless_minecraft.Behaviour.Build.Placings.{build_run, build_run-placements}
use headless_minecraft.Behaviour.Build.Settling.{build_run_done}
use headless_minecraft.Behaviour.Follow.{Geometry, Follow, body_of, follow_tick}
use headless_minecraft.Behaviour.Follow.Stuck.{run_stuck}

abbrev numbers : Floats ℕ ℕ
numbers = record { zero_32 = 0; zero_64 = 0; add_32 = λ a b. a + b; add_64 = λ a b. a + b }

abbrev Seen : Type 0
Seen = Snapshot ℕ ℕ ℕ

abbrev Act : Type 0
Act = Action ℕ ℕ ℕ

abbrev unknown : Seen
unfolding new_player
unknown = record { revision = 0; player = new_player numbers; entities = new_entities }

abbrev hungry : Seen
unfolding unknown
hungry = record unknown {
  player = record unknown.player { known = true; placed = true; food = pos 10 };
}

abbrev dead : Seen
unfolding unknown
dead = record unknown { player = record unknown.player { known = true; dead = true } }

abbrev corner : BlockPos
corner = record { x = pos 1; y = pos 64; z = pos 2 }

abbrev three_ticks : List Seen
three_ticks = unknown ∷ hungry ∷ hungry ∷ hungry ∷ []

run-unstarted_example :
    let d = unstarted corner Face.top 3 2 in
    let r = dig_run ℕ ℕ ℕ ℕ String d three_ticks in
    let begun : List Act = Action.held_slot 3 ∷ start_dig d ∷ [] in
    (r.actions ≡ (
      if ltb 2 (known_ticks three_ticks)
      then begun ++ finish_dig d ∷ []
      else if ltb 0 (known_ticks three_ticks)
      then begun
      else []))
    × (completed r ≡ ltb 2 (known_ticks three_ticks))
run-unstarted_example = run-unstarted ℕ ℕ ℕ ℕ String corner Face.top 3 2 three_ticks (omega arith)

abbrev dig_stage : Dig → Behaviour Seen Act String
dig_stage d = record { State = Dig; now = d; tick = dig_tick }

abbrev first_dig : Behaviour Seen Act String
first_dig = dig_stage (unstarted corner Face.top 3 1)

abbrev second_dig : Behaviour Seen Act String
second_dig = dig_stage (unstarted corner Face.north 4 1)

run-new_sequence_example :
    (s : Sequence Seen Act String) × (new_sequence {Err = String}
        (map some (first_dig ∷ second_dig ∷ []))
      ≡ built s)
    × (run sequence_tick s three_ticks ≡ run_stages first_dig (second_dig ∷ []) three_ticks)
run-new_sequence_example = run-new_sequence first_dig (second_dig ∷ []) three_ticks

run-IsMeal_example :
    let r = eat_run ℕ ℕ ℕ ℕ String (unfed 2 (pos 20) 2) three_ticks in
    IsMeal ℕ ℕ ℕ ℕ String 2 main_hand r.actions r.ending
run-IsMeal_example = run-IsMeal ℕ ℕ ℕ ℕ String 2 (pos 20) 2 three_ticks

run_ends_example : has_ended (eat_run ℕ ℕ ℕ ℕ String (unfed 2 (pos 20) 2) three_ticks) ≡ true
unfolding known_ticks unknown hungry
run_ends_example = run_ends ℕ ℕ ℕ ℕ String 2 (pos 20) 2 three_ticks (omega arith) (omega arith)

-- The body dies while it holds the item: the meal stops, and the item is not let go.
meal_of_the_dead :
    let r = eat_run ℕ ℕ ℕ ℕ String (unfed 2 (pos 20) 2) (hungry ∷ dead ∷ []) in
    (r.actions ≡ Action.held_slot 2 ∷ Action.use_item main_hand ∷ [])
    × (r.ending ≡ ended status_stopped reason_failed [])
unfolding run eat_tick hungry dead
meal_of_the_dead = (refl, refl)

abbrev shield : Block
shield = record { hand = off_hand; raised = false; lowered = false }

abbrev shield_calls : List (Call ℕ ℕ ℕ)
shield_calls = ticks unknown ∷ ticks hungry ∷ ticks hungry ∷ lowers ∷ ticks hungry ∷ []

block_steps-IsToggled_example :
    let (last, actions) = block_steps ℕ ℕ ℕ ℕ String shield shield_calls in
    IsToggled ℕ ℕ ℕ ℕ String off_hand false actions last.raised
unfolding unknown hungry
block_steps-IsToggled_example =
    block_steps-IsToggled ℕ ℕ ℕ ℕ String shield shield_calls
      (refl, (refl, (refl, (tt, (refl, tt)))))

abbrev idle_ticks : List (Tick ℕ ℕ ℕ)
idle_ticks = map (λ o. (none, o)) three_ticks

-- A float that the player's cast spawned.
abbrev floating : Seen
unfolding hungry
floating = record hungry {
  entities = record { tracked = (pos 7, new_entity numbers (pos 7)) ∷ [] };
}

abbrev angler : Fish ℕ ℕ ℕ
angler = record (uncast 1 (λ o id. true) 2 5) { bobber = pos 7; out = true }

run_recast_example :
    (run {Err = String} (fish_tick {Claim = ℕ}) angler (floating ∷ hungry ∷ hungry ∷ [])).ending
    ≡ ended status_stopped reason_out_of_resources []
unfolding hungry floating lookup
run_recast_example =
    run_recast ℕ ℕ ℕ ℕ String angler floating hungry hungry [] (refl, refl) (refl, refl)
      (refl, refl) refl refl refl refl refl refl

-- A cast, the float named, a bite, and the tick that finds the count reached.
abbrev one_fish : List (Tick ℕ ℕ ℕ)
one_fish = (none, hungry) ∷ (some (pos 7), floating) ∷ (none, hungry) ∷ []

uses-fish_run_example :
    uses (fish_run ℕ ℕ ℕ ℕ String (uncast 1 (λ o id. true) 1 5) one_fish).actions ≡ 2 * 1
unfolding run fish_tick hungry floating lookup set_bobber
uses-fish_run_example =
    uses-fish_run ℕ ℕ ℕ ℕ String 1 (λ o id. true) 1 5 one_fish (omega arith) refl

-- The cell east of the corner, and the one over it.
abbrev east_of : BlockPos
east_of = record corner { x = pos 2 }

-- A bridge to the east, a step, and a pillar there.
abbrev bridge : List Edge
bridge =
    record { kind = place; from = corner; to = east_of }
    ∷ record { kind = walk; from = corner; to = east_of }
    ∷ record { kind = pillar; from = east_of; to = record east_of { y = pos 65 } }
    ∷ []

build_run-placements_example :
    IsLaid 5 2 false bridge
      (build_run ℕ ℕ ℕ ℕ String 5 (unbuilt (placements bridge) 2 1) three_ticks).actions
build_run-placements_example =
    build_run-placements ℕ ℕ ℕ ℕ String 5 bridge 2 1 three_ticks
      ((refl, (Face.east, refl, refl)), ((refl, tt), ((refl, tt), tt)))

abbrev six_ticks : List Seen
six_ticks = hungry ∷ three_ticks ++ hungry ∷ []

build_run_done_example :
    let r = build_run ℕ ℕ ℕ ℕ String 5 (unbuilt (placements bridge) 2 1) six_ticks in
    (completed r ≡ true) × IsLaid 5 2 true bridge r.actions
unfolding known_ticks keep unknown hungry
build_run_done_example =
    build_run_done ℕ ℕ ℕ ℕ String 5 bridge 2 1 six_ticks
      ((refl, (Face.east, refl, refl)), ((refl, tt), ((refl, tt), tt))) (omega arith)

-- Distances along one axis.
abbrev line : Geometry ℕ ℕ
line = record {
  zero = 0;
  add = λ a b. a + b;
  sub = λ a b. a - b;
  above = λ a b. ltb b a;
  at_most = leb;
  progress_epsilon = 0;
  horizontal_distance = λ a b. b.x - a.x;
  toward = λ a b step. b;
  add_vec = λ a b. a;
  look = λ a b. (0, 0);
  away = λ a b safe. a;
}

abbrev walker : Follow ℕ
walker = record {
  target = pos 7;
  motion = record { step = 1; arrive = 1; give_up = 0; eye = 1; patience = 2 };
  closest = 0;
  idle = 1;
  started = true;
}

run_stuck_example :
    (run {Err = String} (follow_tick {Claim = ℕ} line) walker (floating ∷ floating ∷ [])).ending
    ≡ ended status_stopped reason_stuck (drop (2 - 1) (floating ∷ floating ∷ []))
unfolding hungry floating lookup body_of
run_stuck_example =
    run_stuck ℕ ℕ ℕ ℕ String line walker (floating ∷ floating ∷ []) refl (omega arith) (omega arith)
      (refl, (refl, tt))
