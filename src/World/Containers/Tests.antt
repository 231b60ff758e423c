-- ===== src/World/Containers/Tests.antt =====
-- Concrete runs of world/containers.go and world/containers_click.go.
use headless_minecraft.Base.{
  ℕ, ◌≡◌, refl, true, false, Option, none, some, List, [], ◌∷◌, ℤ, pos, int_key, arith,
}
use headless_minecraft.Base.Map
use headless_minecraft.Base.Map.{Map}
use headless_minecraft.Event.{new_collector}
use headless_minecraft.Event.Containers.{ContainerOpened}
use headless_minecraft.World.Containers.{
  Containers, SlotSnapshot, new_containers, new_container, slots_changed, opened,
}
use headless_minecraft.World.Containers.Clicks.{snapshot, click, reject, index_of}
use headless_minecraft.World.Containers.Bounds.{IsBounded}
use headless_minecraft.World.Containers.Bounds.Histories.{
  Mutation, opens, slots_change, clicks, closes, mutate_all, mutate_all-IsBounded,
  new_containers-IsBounded,
}
use headless_minecraft.World.Containers.Rollback.{IsRestored, reject-click}
use headless_minecraft.World.Containers.Rollback.Restore.{member, slot_of}
use headless_minecraft.World.Containers.Rollback.Reopened.{reject-opened}

-- A chest that holds an item of number 9 in its slot 3; slot 4 was never described.
abbrev chest : Containers ℕ
chest = record (new_containers {Item = ℕ}) {
  open_menus = (pos 5, record (new_container (pos 5)) { slots = (pos 3, some 9) ∷ [] }) ∷ [];
}

abbrev chest_opened : ContainerOpened
chest_opened = record {
  container_id = pos 5;
  menu_type = "furnace";
  title = "Furnace";
  slot_count = pos 3;
  entity_id = pos 0;
  entity_known = false;
}

abbrev in_order : Map ℤ (Option ℕ) → List (ℤ × Option ℕ)
in_order m = m

abbrev taken : List (SlotSnapshot ℕ)
taken =
    record { slot = pos 3; item = none; held = false; known = true }
    ∷ record { slot = pos 4; item = some 9; held = true; known = true }
    ∷ []

abbrev history : List (Mutation ℕ)
history =
    opens chest_opened
    ∷ slots_change (pos 5) ((pos 3, some 9) ∷ []) (pos 0) false
    ∷ clicks
        (record {
          sequence = pos 1;
          window = pos 5;
          before = [];
          cursor_before = none;
          cursor_held = false;
        })
        taken
    ∷ closes (pos 5)
    ∷ []

-- The prediction moves the item to slot 4.
click_moves :
    slot_of
      (click in_order chest new_collector
        (snapshot chest (pos 1) (pos 5) (pos 3 ∷ pos 4 ∷ []))
        taken).0
      (pos 5)
      (pos 4)
    ≡ some (some 9)
unfolding click snapshot slot_of slots_changed Map.lookup Map.insert
click_moves = refl

mutate_all-IsBounded_example :
    IsBounded (mutate_all in_order new_containers new_collector history).0
mutate_all-IsBounded_example =
    mutate_all-IsBounded in_order new_containers new_collector history new_containers-IsBounded

reject-click_example :
    let t =
      click in_order chest new_collector
        (snapshot chest (pos 1) (pos 5) (pos 3 ∷ pos 4 ∷ []))
        taken in
    ((reject t.0 t.1 (pos 1)).2 ≡ none) × IsRestored chest (reject t.0 t.1 (pos 1)).0 (pos 5)
unfolding Map.lookup index_of member
reject-click_example =
    reject-click in_order (λ P m h. h) chest new_collector (pos 1) (pos 5)
      (record (new_container (pos 5)) { slots = (pos 3, some 9) ∷ [] }) (pos 3 ∷ pos 4 ∷ []) taken
      refl (omega arith) refl refl (refl, (refl, tt))

chest-IsBounded : IsBounded chest
chest-IsBounded = record {
  menus = omega arith;
  each = (record { slots = omega arith; properties = omega arith }, tt);
  recipes = omega arith;
  pending = omega arith;
}

reject-opened_example :
    let t = click in_order chest new_collector (snapshot chest (pos 1) (pos 5) (pos 3 ∷ [])) [] in
    let u = opened t.0 t.1 chest_opened in
    slot_of (reject u.0 u.1 (pos 1)).0 (pos 5) (pos 3) ≡ slot_of chest (pos 5) (pos 3)
unfolding Map.lookup index_of member
reject-opened_example =
    reject-opened in_order chest new_collector (pos 1) chest_opened
      (record (new_container (pos 5)) { slots = (pos 3, some 9) ∷ [] }) (pos 3 ∷ []) [] (pos 3)
      chest-IsBounded refl (omega arith) refl refl
