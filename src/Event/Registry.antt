-- ===== src/Event/Registry.antt =====
-- event/registry.go: the events of the registry domain, one record for each struct of two fields or more;
-- an event of one field carries it in its constructor.
use headless_minecraft.Base.{ℕ, String, List}

pub record RegistryDataReceived : Type 0 where
  pub registry : String
  pub entries : ℕ
  pub state : String

pub record RegistryTagsReceived : Type 0 where
  pub types : List String
  pub tags : ℕ

pub record RegistryPlayerListChanged : Type 0 where
  pub added : List String
  pub updated : List String
  pub removed : List String

pub data RegistryEvent : Type 0 where
  data_received : RegistryDataReceived → RegistryEvent
  tags_received : RegistryTagsReceived → RegistryEvent
  commands_received : ℕ → RegistryEvent
  player_list_changed : RegistryPlayerListChanged → RegistryEvent

unfoldable pub name : RegistryEvent → String
name (data_received e) = "registry.data_received"
name (tags_received e) = "registry.tags_received"
name (commands_received e) = "registry.commands_received"
name (player_list_changed e) = "registry.player_list_changed"
