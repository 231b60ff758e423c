-- ===== src/World/Core/Tests.antt =====
-- Concrete runs of world/world.go: numbers for packets, events and stores, and strings for errors.
use headless_minecraft.Base.{ℕ, ◌+◌, ◌≡◌, refl, String, true, none, some, List, [], ◌∷◌, length}
use headless_minecraft.Event.{new_collector}
use headless_minecraft.Version.Batch.{Batch}
use headless_minecraft.World.Core.{
  World, Reducer, Mutate, world_poisoned, new_world, register, apply, amend, snapshot,
}
use headless_minecraft.World.Core.Revisions.{
  perform, Call, registers, applies, amends, perform_all, apply_fails,
}

abbrev Small : Type 0
Small = World ℕ ℕ ℕ ℕ String

abbrev empty : Small
empty = new_world 0 0

-- A reducer that counts the packets, and one that fails.
abbrev counting : Reducer ℕ ℕ ℕ ℕ String
counting = λ context batch c menus others. record {
  context = context;
  collector = c;
  menus = menus + length batch.packets;
  others = others;
  failure = none;
}

abbrev failing : Reducer ℕ ℕ ℕ ℕ String
failing = λ context batch c menus others. record {
  context = context;
  collector = c;
  menus = menus;
  others = others;
  failure = some "broken";
}

abbrev two_packets : Batch ℕ
two_packets = record { packets = 4 ∷ 5 ∷ []; bundled = true; state = "play" }

abbrev predicts : Mutate ℕ ℕ String
predicts = λ menus c. (menus + 1, c, none)

abbrev calls : List (Call ℕ ℕ ℕ ℕ String)
calls = registers (some counting) ∷ applies two_packets ∷ amends predicts ∷ applies two_packets ∷ []

three_revisions : (perform_all empty calls).1 ≡ 1 ∷ 2 ∷ 3 ∷ []
unfolding perform_all perform register apply amend
three_revisions = refl

abbrev breaking : Small
breaking = record empty { reducers = counting ∷ failing ∷ [] }

abbrev broken : Small
broken = record breaking { started = true; poisoned = some "broken"; menus = 2 }

apply_fails_example :
    (0 ≡ breaking.revision)
    × (broken.revision ≡ breaking.revision)
    × (broken.local ≡ breaking.local)
    × ((later : List (Call ℕ ℕ ℕ ℕ String)) → perform_all broken later ≡ (broken, []))
    × (snapshot broken ≡ (none, some (world_poisoned "broken")))
unfolding apply
apply_fails_example =
    apply_fails breaking broken two_packets new_collector new_collector 0 "broken" refl refl
