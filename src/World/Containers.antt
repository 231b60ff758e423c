-- ===== src/World/Containers.antt =====
-- world/containers.go: the menus that the server has open, their slots and properties, the cursor,
-- the recipe book and the clicks that await an answer. An item is what the protocol decoded, of any
-- type; `none` is Go's nil. Counters of type `int` count packets and are left unbounded.
pub mod Clicks
pub mod Bounds
pub mod Rollback
mod Tests
use headless_minecraft.Base.{
  ℕ, ◌+◌, String, Bool, true, false, not, ◌&&◌, Option, none, some, List, [], ◌∷◌, ◌++◌, ℤ, pos,
  int_leb, int_key, leb, if◌then◌else◌, ◌==◌, keep, is_empty,
}
use headless_minecraft.Base.Map
use headless_minecraft.Base.Map.{Map}
use headless_minecraft.Base.Sort.{sort}
use headless_minecraft.Event.{Collector, emit}
use headless_minecraft.Event.Containers.{ContainerEvent, ContainerOpened, ContainerTradesChanged}

abbrev pub max_containers : ℕ
max_containers = 64

abbrev pub max_slots : ℕ
max_slots = 1024

abbrev pub max_properties : ℕ
max_properties = 64

abbrev pub max_recipes : ℕ
max_recipes = 8192

abbrev pub max_pending : ℕ
max_pending = 256

abbrev pub player_container_id : ℤ
player_container_id = pos 0

pub record Container (Item : Type 0) : Type 0 where
  pub id : ℤ
  pub menu_type : String
  pub title : String
  pub slot_count : ℤ
  pub entity_id : ℤ
  pub entity_known : Bool
  pub state_id : ℤ
  pub state_known : Bool
  pub slots : Map ℤ (Option Item)
  pub properties : Map ℤ ℤ
  pub dropped_slots : ℕ

-- world/containers_click.go keeps these two beside the operations on them.
pub record SlotSnapshot (Item : Type 0) : Type 0 where
  pub slot : ℤ
  pub item : Option Item
  pub held : Bool
  pub known : Bool

pub record Pending (Item : Type 0) : Type 0 where
  pub sequence : ℤ
  pub window : ℤ
  pub before : List (SlotSnapshot Item)
  pub cursor_before : Option Item
  pub cursor_held : Bool

pub record Containers (Item : Type 0) : Type 0 where
  pub open_menus : Map ℤ (Container Item)
  pub cursor : Option Item
  pub cursor_held : Bool
  pub cursor_sent : Bool
  pub pending : List (Pending Item)
  pub dropped_pending : ℕ
  pub dropped : ℕ
  pub recipes : Map ℤ Bool
  pub recipes_known : Bool
  pub declared_count : ℕ
  pub dropped_recipes : ℕ

abbrev pub Events : Type 0
Events = Collector ContainerEvent

-- `s.recipes[id]`, which is false for a missing key.
abbrev has_recipe : Map ℤ Bool → ℤ → Bool
has_recipe recipes id = elim (Map.lookup id recipes) [ some b ↦ b | none ↦ false ]

delete_all : Map ℤ Bool → List ℤ → Map ℤ Bool
delete_all recipes [] = recipes
delete_all recipes (id ∷ removed) = delete_all (Map.delete id recipes) removed

module _ {Item : Type 0} where
  abbrev pub new_containers : Containers Item
  new_containers = record {
    open_menus = [];
    cursor = none;
    cursor_held = false;
    cursor_sent = false;
    pending = [];
    dropped_pending = 0;
    dropped = 0;
    recipes = [];
    recipes_known = false;
    declared_count = 0;
    dropped_recipes = 0;
  }

  abbrev pub new_container : ℤ → Container Item
  new_container id = record {
    id = id;
    menu_type = "";
    title = "";
    slot_count = pos 0;
    entity_id = pos 0;
    entity_known = false;
    state_id = pos 0;
    state_known = false;
    slots = [];
    properties = [];
    dropped_slots = 0;
  }

  -- A write through the pointer that `track` hands out.
  abbrev pub put : Containers Item → ℤ → Container Item → Containers Item
  put s id menu = record s { open_menus = Map.insert id menu s.open_menus }

  unfoldable pub track : Containers Item → ℤ → Containers Item × Option (Container Item)
  track s id = elim (Map.lookup id s.open_menus) [
    | some c ↦ (s, some c)
    | none ↦
        if leb max_containers (Map.size s.open_menus)
        then (record s { dropped = s.dropped + 1 }, none)
        else (put s id (new_container id), some (new_container id))
  ]

  open_tracked :
      Containers Item × Option (Container Item)
      → Events
      → ContainerOpened
      → Containers Item × Events
  open_tracked (s, none) c e = (s, c)
  open_tracked (s, some menu) c e = (
    put s e.container_id (record menu {
      menu_type = e.menu_type;
      title = e.title;
      slot_count = e.slot_count;
      entity_id = e.entity_id;
      entity_known = e.entity_known;
    }),
    emit c (ContainerEvent.opened e),
  )

  unfoldable pub opened : Containers Item → Events → ContainerOpened → Containers Item × Events
  unfolding open_tracked track emit
  opened s c e =
      open_tracked
        (track (record s { open_menus = Map.delete e.container_id s.open_menus }) e.container_id) c
        e

  unfoldable pub closed : Containers Item → Events → ℤ → Containers Item × Events
  unfolding emit
  closed s c id =
      if Map.contains id s.open_menus
      then (
        record s {
          open_menus = Map.delete id s.open_menus;
          pending = keep (λ p. not (p.window == id)) s.pending;
        },
        emit c (ContainerEvent.closed id),
      )
      else (s, c)

  -- One turn of the loop over `items`, with the slots written so far.
  unfoldable pub slot_step : Container Item × List ℤ → ℤ × Option Item → Container Item × List ℤ
  slot_step (menu, slots) (slot, item) =
      if not (Map.contains slot menu.slots) && leb max_slots (Map.size menu.slots)
      then (record menu { dropped_slots = menu.dropped_slots + 1 }, slots)
      else (record menu { slots = Map.insert slot item menu.slots }, slots ++ slot ∷ [])

  unfoldable pub slot_loop :
      Container Item × List ℤ → List (ℤ × Option Item) → Container Item × List ℤ
  unfolding slot_step
  slot_loop acc [] = acc
  slot_loop acc (entry ∷ rest) = slot_loop (slot_step acc entry) rest

  set_state : Container Item → ℤ → Bool → Container Item
  set_state menu state_id true = record menu { state_id = state_id; state_known = true }
  set_state menu state_id false = menu

  emit_slots : Events → ℤ → Container Item → List ℤ → Events
  unfolding emit
  emit_slots c id menu slots = emit c (
      ContainerEvent.slots_changed (record {
        container_id = id;
        slots = sort int_leb slots;
        properties = [];
        state_id = menu.state_id;
        state_known = menu.state_known;
        dropped = menu.dropped_slots;
      }))

  fill_tracked :
      Containers Item × Option (Container Item)
      → Events
      → ℤ
      → List (ℤ × Option Item)
      → ℤ
      → Bool
      → Containers Item × Events
  fill_tracked (s, none) c id items state_id state_known = (s, c)
  fill_tracked (s, some menu) c id items state_id state_known =
      let (filled, slots) = slot_loop (set_state menu state_id state_known, []) items in
      (
        put s id filled,
        (if is_empty slots && not state_known then c else emit_slots c id filled slots),
      )

  -- `items` lists the entries of the map in the order in which the runtime visits them.
  unfoldable pub slots_changed :
      Containers Item → Events → ℤ → List (ℤ × Option Item) → ℤ → Bool → Containers Item × Events
  unfolding fill_tracked track set_state emit_slots slot_loop
  slots_changed s c id items state_id state_known =
      fill_tracked (track s id) c id items state_id state_known

  property_tracked :
      Containers Item × Option (Container Item) → Events → ℤ → ℤ → ℤ → Containers Item × Events
  unfolding emit
  property_tracked (s, none) c id property value = (s, c)
  property_tracked (s, some menu) c id property value =
      if not (Map.contains property menu.properties)
        && leb max_properties (Map.size menu.properties)
      then (s, c)
      else (
        put s id (record menu { properties = Map.insert property value menu.properties }),
        emit c (
            ContainerEvent.slots_changed (record {
              container_id = id;
              slots = [];
              properties = property ∷ [];
              state_id = menu.state_id;
              state_known = menu.state_known;
              dropped = 0;
            })),
      )

  unfoldable pub property_changed : Containers Item → Events → ℤ → ℤ → ℤ → Containers Item × Events
  unfolding property_tracked track
  property_changed s c id property value = property_tracked (track s id) c id property value

  -- The value that a slot or the cursor keeps: nil unless it is held.
  abbrev pub if_held : Bool → Option Item → Option Item
  if_held held item = if held then item else none

  unfoldable pub player_slot_changed :
      Containers Item → Events → ℤ → Option Item → Bool → Containers Item × Events
  unfolding slots_changed
  player_slot_changed s c slot item held =
      slots_changed s c player_container_id ((slot, if_held held item) ∷ []) (pos 0) false

  unfoldable pub cursor_changed :
      Containers Item → Events → Option Item → Bool → Containers Item × Events
  unfolding emit
  cursor_changed s c item held = (
    record s { cursor = if_held held item; cursor_held = held; cursor_sent = true },
    emit c (ContainerEvent.cursor_changed (not held)),
  )

  -- One turn of the loop over `added`, with the ids kept so far.
  recipe_step : Containers Item × List ℤ → ℤ → Containers Item × List ℤ
  recipe_step (s, kept) id =
      if not (has_recipe s.recipes id) && leb max_recipes (Map.size s.recipes)
      then (record s { dropped_recipes = s.dropped_recipes + 1 }, kept)
      else (record s { recipes = Map.insert id true s.recipes }, kept ++ id ∷ [])

  recipe_loop : Containers Item × List ℤ → List ℤ → Containers Item × List ℤ
  unfolding recipe_step
  recipe_loop acc [] = acc
  recipe_loop acc (id ∷ added) = recipe_loop (recipe_step acc id) added

  unfoldable pub recipes_changed :
      Containers Item → Events → List ℤ → List ℤ → Bool → Containers Item × Events
  unfolding recipe_loop delete_all emit
  recipes_changed s c added removed replaced =
      let start : Map ℤ Bool = delete_all (if replaced then [] else s.recipes) removed in
      let (t, kept) = recipe_loop (record s { recipes_known = true; recipes = start }, []) added in
      (
        t,
        emit c (
            ContainerEvent.recipes_changed
              (record { added = kept; removed = removed; declared = 0; replaced = replaced })),
      )

  unfoldable pub recipes_declared : Containers Item → Events → ℕ → Containers Item × Events
  unfolding emit
  recipes_declared s c count = (
    record s { recipes_known = true; declared_count = count },
    emit c (
        ContainerEvent.recipes_changed
          (record { added = []; removed = []; declared = count; replaced = false })),
  )

  unfoldable pub trades_changed :
      Containers Item → Events → ContainerTradesChanged → Containers Item × Events
  unfolding track emit
  trades_changed s c trades =
      ((track s trades.container_id).0, emit c (ContainerEvent.trades_changed trades))

  unfoldable pub craft_response : Containers Item → Events → ℤ → Containers Item × Events
  unfolding emit
  craft_response s c id = (s, emit c (ContainerEvent.craft_response id))
