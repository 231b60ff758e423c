-- ===== src/World/Entities/Tests.antt =====
-- Concrete runs of world/entities.go, with numbers for floats.
use headless_minecraft.Base.{ℕ, ◌+◌, ◌≡◌, refl, [], ◌∷◌, pos, if◌then◌else◌, ◌==◌, int_key}
use headless_minecraft.Event.{new_collector}
use headless_minecraft.World.Floats.{Floats}
use headless_minecraft.World.Entities.{Entities, Events, new_entities, tracked_at}
use headless_minecraft.World.Entities.Riders.{passengers_changed}
use headless_minecraft.World.Entities.Riders.Switches.{
  rides, passengers_changed_lem, vehicle-passengers_changed,
}

abbrev numbers : Floats ℕ ℕ
numbers = record { zero_32 = 0; zero_64 = 0; add_32 = λ a b. a + b; add_64 = λ a b. a + b }

abbrev nobody : Entities ℕ ℕ ℕ
nobody = new_entities

abbrev no_events : Events ℕ ℕ
no_events = new_collector

passengers_changed_lem_example :
    let t = (passengers_changed numbers nobody no_events (pos 4) (pos 9 ∷ [])).0 in
    ((tracked_at numbers t (pos 9)).vehicle ≡ (
      if rides (pos 9) (pos 9 ∷ [])
      then pos 4
      else if rides (pos 9) (tracked_at numbers nobody (pos 4)).passengers
      then pos 0
      else (tracked_at numbers nobody (pos 9)).vehicle))
    × ((tracked_at numbers t (pos 9)).passengers
        ≡ (if pos 4 == pos 9 then pos 9 ∷ [] else (tracked_at numbers nobody (pos 9)).passengers))
passengers_changed_lem_example =
    passengers_changed_lem numbers nobody no_events (pos 4) (pos 9 ∷ []) (pos 9)

vehicle-passengers_changed_example :
    let t = passengers_changed numbers nobody no_events (pos 4) (pos 9 ∷ []) in
    let u = passengers_changed numbers t.0 t.1 (pos 5) (pos 9 ∷ []) in
    let v = passengers_changed numbers u.0 u.1 (pos 4) [] in
    ((tracked_at numbers v.0 (pos 9)).vehicle ≡ pos 0)
    × ((tracked_at numbers v.0 (pos 5)).passengers ≡ pos 9 ∷ [])
vehicle-passengers_changed_example =
    vehicle-passengers_changed numbers nobody no_events (pos 4) (pos 5) (pos 9) refl
