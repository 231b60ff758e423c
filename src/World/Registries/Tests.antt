-- ===== src/World/Registries/Tests.antt =====
-- Concrete runs of world/registry.go.
use headless_minecraft.Base.{
  ◌≡◌, refl, true, false, none, some, List, [], ◌∷◌, pos, string_key, if◌then◌else◌,
}
use headless_minecraft.Base.Map
use headless_minecraft.Event.{new_collector}
use headless_minecraft.World.Registries.{
  Registries, new_registries, ListedPlayer, PlayerListChange, player_list_changed,
}
use headless_minecraft.World.Registries.Bounds.{
  Mutation, receives_data, receives_tags, receives_commands, changes_players,
}
use headless_minecraft.World.Registries.Players.{lookup-player_list_changed, member, listed_after}

abbrev steve : ListedPlayer
steve = record { uuid = "a1"; name = "Steve"; game_mode = pos 0; latency = pos 40; listed = true }

-- A change of the latency alone.
abbrev slower : PlayerListChange
slower = record {
  uuid = "a1";
  name = "";
  set_name = false;
  game_mode = pos 0;
  set_game_mode = false;
  latency = pos 90;
  set_latency = true;
  listed = false;
  set_listed = false;
}

abbrev one_listed : Registries
one_listed = record new_registries { players = ("a1", steve) ∷ [] }

abbrev history : List Mutation
history =
    receives_data "minecraft:dimension_type" ("minecraft:overworld" ∷ []) "configuration"
    ∷ receives_tags (("minecraft:block", 3) ∷ [])
    ∷ receives_commands 12
    ∷ changes_players (slower ∷ []) []
    ∷ []

lookup-player_list_changed_example :
    Map.lookup "a1"
      (player_list_changed one_listed new_collector (slower ∷ []) ("b2" ∷ [])).0.players
    ≡ (if member "a1" ("b2" ∷ []) then none else some (listed_after "a1" steve (slower ∷ [])))
unfolding Map.lookup
lookup-player_list_changed_example =
    lookup-player_list_changed one_listed new_collector (slower ∷ []) ("b2" ∷ []) "a1" steve refl
