-- ===== src/Event/Containers.antt =====
-- event/containers.go: the events of the container domain, one record for each struct.
use headless_minecraft.Base.{ℕ, ℤ, String, Bool, List}

pub record ContainerOpened : Type 0 where
  pub container_id : ℤ
  pub menu_type : String
  pub title : String
  pub slot_count : ℤ
  pub entity_id : ℤ
  pub entity_known : Bool

pub record ContainerSlotsChanged : Type 0 where
  pub container_id : ℤ
  pub slots : List ℤ
  pub properties : List ℤ
  pub state_id : ℤ
  pub state_known : Bool
  pub dropped : ℕ

pub record ContainerRecipesChanged : Type 0 where
  pub added : List ℤ
  pub removed : List ℤ
  pub declared : ℕ
  pub replaced : Bool

pub record ContainerTradesChanged : Type 0 where
  pub container_id : ℤ
  pub count : ℕ
  pub villager_level : ℤ
  pub experience : ℤ
  pub regular : Bool
  pub can_restock : Bool

-- `closed` and `craft_response` carry the container's id, `cursor_changed` whether it is empty.
pub data ContainerEvent : Type 0 where
  opened : ContainerOpened → ContainerEvent
  closed : ℤ → ContainerEvent
  slots_changed : ContainerSlotsChanged → ContainerEvent
  cursor_changed : Bool → ContainerEvent
  recipes_changed : ContainerRecipesChanged → ContainerEvent
  trades_changed : ContainerTradesChanged → ContainerEvent
  craft_response : ℤ → ContainerEvent

unfoldable pub name : ContainerEvent → String
name (opened e) = "container.opened"
name (closed e) = "container.closed"
name (slots_changed e) = "container.slots_changed"
name (cursor_changed e) = "container.cursor_changed"
name (recipes_changed e) = "container.recipes_changed"
name (trades_changed e) = "container.trades_changed"
name (craft_response e) = "container.craft_response"
