-- ===== src/World/Registries.antt =====
-- world/registry.go: the registries, tags and commands that the server defined, and its player list.
pub mod Bounds
pub mod Players
mod Tests
use headless_minecraft.Base.{
  ℕ, ◌+◌, String, Bool, true, false, not, ◌&&◌, Option, none, some, List, [], ◌∷◌, ◌++◌, ℤ, pos,
  leb, length, is_empty, if◌then◌else◌, string_key, str_leb,
}
use headless_minecraft.Base.Map
use headless_minecraft.Base.Map.{Map}
use headless_minecraft.Base.Sort.{sort}
use headless_minecraft.Event.{Collector, emit}
use headless_minecraft.Event.Registry.{RegistryEvent}

abbrev pub max_registries : ℕ
max_registries = 512

abbrev pub max_tag_types : ℕ
max_tag_types = 512

abbrev pub max_listed_players : ℕ
max_listed_players = 10000

pub record Registry : Type 0 where
  pub key : String
  pub entries : List String
  pub state : String

pub record ListedPlayer : Type 0 where
  pub uuid : String
  pub name : String
  pub game_mode : ℤ
  pub latency : ℤ
  pub listed : Bool

pub record Registries : Type 0 where
  pub defined : Map String Registry
  pub tag_types : Map String ℕ
  pub command_nodes : ℕ
  pub commands_known : Bool
  pub players : Map String ListedPlayer
  pub dropped : ℕ
  pub dropped_players : ℕ

abbrev pub Events : Type 0
Events = Collector RegistryEvent

abbrev pub new_registries : Registries
new_registries = record {
  defined = [];
  tag_types = [];
  command_nodes = 0;
  commands_known = false;
  players = [];
  dropped = 0;
  dropped_players = 0;
}

unfoldable pub data_received :
    Registries → Events → String → List String → String → Registries × Events
unfolding emit
data_received s c key entries state =
    if not (Map.contains key s.defined) && leb max_registries (Map.size s.defined)
    then (record s { dropped = s.dropped + 1 }, c)
    else (
      record s {
        defined = Map.insert key (record { key = key; entries = entries; state = state }) s.defined;
      },
      emit c (
          RegistryEvent.data_received
            (record { registry = key; entries = length entries; state = state })),
    )

-- One turn of the loop over `counts`, with the types and the total so far.
unfoldable pub tag_step : Registries × List String × ℕ → String × ℕ → Registries × List String × ℕ
tag_step (s, types, total) (tag_type, count) =
    if not (Map.contains tag_type s.tag_types) && leb max_tag_types (Map.size s.tag_types)
    then (record s { dropped = s.dropped + 1 }, types, total)
    else (
      record s { tag_types = Map.insert tag_type count s.tag_types },
      types ++ tag_type ∷ [],
      total + count,
    )

unfoldable pub tag_loop :
    Registries × List String × ℕ → List (String × ℕ) → Registries × List String × ℕ
unfolding tag_step
tag_loop acc [] = acc
tag_loop acc (entry ∷ rest) = tag_loop (tag_step acc entry) rest

emit_tags : Registries × List String × ℕ → Events → Registries × Events
unfolding emit
emit_tags (s, types, total) c = if is_empty types then (s, c) else (
  s,
  emit c (RegistryEvent.tags_received (record { types = sort str_leb types; tags = total })),
)

-- `counts` lists the entries of the map in the order in which the runtime visits them.
unfoldable pub tags_received : Registries → Events → List (String × ℕ) → Registries × Events
unfolding tag_loop emit_tags
tags_received s c counts =
    if is_empty counts then (s, c) else emit_tags (tag_loop (s, [], 0) counts) c

unfoldable pub commands_received : Registries → Events → ℕ → Registries × Events
unfolding emit
commands_received s c nodes = (
  record s { command_nodes = nodes; commands_known = true },
  emit c (RegistryEvent.commands_received nodes),
)

pub record PlayerListChange : Type 0 where
  pub uuid : String
  pub name : String
  pub set_name : Bool
  pub game_mode : ℤ
  pub set_game_mode : Bool
  pub latency : ℤ
  pub set_latency : Bool
  pub listed : Bool
  pub set_listed : Bool

-- `ListedPlayer{UUID: uuid}`
abbrev pub new_player : String → ListedPlayer
new_player uuid = record {
  uuid = uuid;
  name = "";
  game_mode = pos 0;
  latency = pos 0;
  listed = false;
}

-- The four fields, each where the change supplies it.
abbrev pub merged : ListedPlayer → PlayerListChange → ListedPlayer
merged player change = record player {
  name = if change.set_name then change.name else player.name;
  game_mode = if change.set_game_mode then change.game_mode else player.game_mode;
  latency = if change.set_latency then change.latency else player.latency;
  listed = if change.set_listed then change.listed else player.listed;
}

-- The lists that the loop appends to.
pub record Changed : Type 0 where
  pub added : List String
  pub updated : List String

unfoldable pub change_step : Registries × Changed → PlayerListChange → Registries × Changed
change_step (s, done) change = elim (Map.lookup change.uuid s.players) [
  | some player ↦ (
    record s { players = Map.insert change.uuid (merged player change) s.players },
    record done { updated = done.updated ++ change.uuid ∷ [] },
  )
  | none ↦
      if leb max_listed_players (Map.size s.players)
      then (record s { dropped_players = s.dropped_players + 1 }, done)
      else (
        record s {
          players = Map.insert change.uuid (merged (new_player change.uuid) change) s.players;
        },
        record done { added = done.added ++ change.uuid ∷ [] },
      )
]

unfoldable pub change_loop : Registries × Changed → List PlayerListChange → Registries × Changed
unfolding change_step
change_loop acc [] = acc
change_loop acc (change ∷ rest) = change_loop (change_step acc change) rest

unfoldable pub remove_step : Registries × List String → String → Registries × List String
remove_step (s, gone) uuid =
    if Map.contains uuid s.players
    then (record s { players = Map.delete uuid s.players }, gone ++ uuid ∷ [])
    else (s, gone)

unfoldable pub remove_loop : Registries × List String → List String → Registries × List String
unfolding remove_step
remove_loop acc [] = acc
remove_loop acc (uuid ∷ rest) = remove_loop (remove_step acc uuid) rest

emit_players : Registries × List String → Changed → Events → Registries × Events
unfolding emit
emit_players (s, gone) done c =
    if leb (length done.added + length done.updated + length gone) 0 then (s, c) else (
      s,
      emit c (
          RegistryEvent.player_list_changed (record {
            added = sort str_leb done.added;
            updated = sort str_leb done.updated;
            removed = sort str_leb gone;
          })),
    )

unfoldable pub player_list_changed :
    Registries → Events → List PlayerListChange → List String → Registries × Events
unfolding change_loop remove_loop emit_players
player_list_changed s c changes removed =
    let (t, done) = change_loop (s, record { added = []; updated = [] }) changes in
    emit_players (remove_loop (t, []) removed) done c
