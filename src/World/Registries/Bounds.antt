-- ===== src/World/Registries/Bounds.antt =====
-- The bounds of world/registry.go hold in every history.
use headless_minecraft.Base.{
  ℕ, ◌≤◌, String, List, [], ◌∷◌, string_key, arith, Option-cases, inl, inr,
}
use headless_minecraft.Base.Map
use headless_minecraft.Base.Map.{Map, size-insert, size-delete-le, lookup-insert, lookup-delete}
use headless_minecraft.World.Registries.{
  Registries, Events, Changed, PlayerListChange, merged, new_player, data_received, tag_step,
  tag_loop, emit_tags, tags_received, commands_received, change_step, change_loop, remove_step,
  remove_loop, emit_players, player_list_changed, max_registries, max_tag_types, max_listed_players,
}

pub record IsBounded (s : Registries) : Type 0 where
  pub defined : Map.size s.defined ≤ max_registries
  pub tag_types : Map.size s.tag_types ≤ max_tag_types
  pub players : Map.size s.players ≤ max_listed_players

tag_loop-IsBounded :
    (s : Registries) (types : List String) (total : ℕ) (counts : List (String × ℕ))
    → IsBounded s
    → IsBounded (tag_loop (s, types, total) counts).0
unfolding tag_loop
tag_loop-IsBounded s types total [] v = v
tag_loop-IsBounded s types total ((tag_type, count) ∷ rest) v =
    let t = tag_step (s, types, total) (tag_type, count) in
    tag_loop-IsBounded t.0 t.1 t.2 rest
      (ground (arith, v.defined, v.tag_types, v.players, size-insert tag_type count s.tag_types))

change_step-IsBounded :
    (s : Registries) (done : Changed) (change : PlayerListChange)
    → IsBounded s
    → IsBounded (change_step (s, done) change).0
unfolding change_step
change_step-IsBounded s done change v = elim (Option-cases (Map.lookup change.uuid s.players)) [
  | inl e ↦
      rw (e, change_step)
        (ground (
          arith,
          v.defined,
          v.tag_types,
          v.players,
          size-insert change.uuid (merged (new_player change.uuid) change) s.players,
          e,
        ))
  | inr (player, e) ↦
      rw (e, change_step)
        (ground (
          arith,
          v.defined,
          v.tag_types,
          v.players,
          size-insert change.uuid (merged player change) s.players,
          e,
        ))
]

change_loop-IsBounded :
    (s : Registries) (done : Changed) (changes : List PlayerListChange)
    → IsBounded s
    → IsBounded (change_loop (s, done) changes).0
unfolding change_loop
change_loop-IsBounded s done [] v = v
change_loop-IsBounded s done (change ∷ rest) v =
    let t = change_step (s, done) change in
    change_loop-IsBounded t.0 t.1 rest (change_step-IsBounded s done change v)

remove_loop-IsBounded :
    (s : Registries) (gone removed : List String)
    → IsBounded s
    → IsBounded (remove_loop (s, gone) removed).0
unfolding remove_loop
remove_loop-IsBounded s gone [] v = v
remove_loop-IsBounded s gone (uuid ∷ rest) v =
    let t = remove_step (s, gone) uuid in
    remove_loop-IsBounded t.0 t.1 rest
      (ground (arith, v.defined, v.tag_types, v.players, size-delete-le uuid s.players))

-- The mutators of the store, with their arguments.
pub data Mutation : Type 0 where
  receives_data : String → List String → String → Mutation
  receives_tags : List (String × ℕ) → Mutation
  receives_commands : ℕ → Mutation
  changes_players : List PlayerListChange → List String → Mutation

abbrev pub mutate : Registries → Events → Mutation → Registries × Events
mutate s c (receives_data key entries state) = data_received s c key entries state
mutate s c (receives_tags counts) = tags_received s c counts
mutate s c (receives_commands nodes) = commands_received s c nodes
mutate s c (changes_players changes removed) = player_list_changed s c changes removed

pub registry_history : Registries → Events → List Mutation → Registries × Events
registry_history s c [] = (s, c)
registry_history s c (m ∷ rest) = registry_history (mutate s c m).0 (mutate s c m).1 rest

emit_tags-IsBounded :
    (s : Registries) (types : List String) (total : ℕ) (c : Events)
    → IsBounded s
    → IsBounded (emit_tags (s, types, total) c).0
unfolding emit_tags
emit_tags-IsBounded s types total c v = ground (arith, v.defined, v.tag_types, v.players)

emit_players-IsBounded :
    (s : Registries) (gone : List String) (done : Changed) (c : Events)
    → IsBounded s
    → IsBounded (emit_players (s, gone) done c).0
unfolding emit_players
emit_players-IsBounded s gone done c v = ground (arith, v.defined, v.tag_types, v.players)

mutate-IsBounded :
    (s : Registries) (c : Events) (m : Mutation) → IsBounded s → IsBounded (mutate s c m).0
unfolding data_received tags_received commands_received player_list_changed
mutate-IsBounded s c (receives_data key entries state) v = ground (
  arith,
  v.defined,
  v.tag_types,
  v.players,
  size-insert key (record { key = key; entries = entries; state = state }) s.defined,
)
mutate-IsBounded s c (receives_tags []) v = v
mutate-IsBounded s c (receives_tags (count ∷ counts)) v =
    let t = tag_loop (s, [], 0) (count ∷ counts) in
    emit_tags-IsBounded t.0 t.1 t.2 c (tag_loop-IsBounded s [] 0 (count ∷ counts) v)
mutate-IsBounded s c (receives_commands nodes) v = record {
  defined = v.defined;
  tag_types = v.tag_types;
  players = v.players;
}
mutate-IsBounded s c (changes_players changes removed) v =
    let start : Changed = record { added = []; updated = [] } in
    let t = change_loop (s, start) changes in
    let u = remove_loop (t.0, []) removed in
    emit_players-IsBounded u.0 u.1 t.1 c
      (remove_loop-IsBounded t.0 [] removed (change_loop-IsBounded s start changes v))

-- From any bounded store, every history of registries, tags, command trees and player lists keeps
-- at most 512 registries, 512 tag types and 10,000 listed players.
pub registry_history-IsBounded :
    (s : Registries) (c : Events) (history : List Mutation)
    → IsBounded s
    → IsBounded (registry_history s c history).0
unfolding registry_history
registry_history-IsBounded s c [] v = v
registry_history-IsBounded s c (m ∷ rest) v =
    registry_history-IsBounded (mutate s c m).0 (mutate s c m).1 rest (mutate-IsBounded s c m v)
