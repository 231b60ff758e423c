-- ===== src/World/Registries/Players.antt =====
-- What a packet of world/registry.go's player list makes of one listed player.
use headless_minecraft.Base.{
  ◌≡◌, refl, ◌∙◌, String, Bool, false, ◌||◌, some, none, List, [], ◌∷◌, if◌then◌else◌, string_key,
  arith, ◌==◌, ==_iff, Option-cases, Bool-cases, ◌&&◌, inl, inr,
}
use headless_minecraft.Base.Map
use headless_minecraft.Base.Map.{Map, lookup-insert, lookup-delete}
use headless_minecraft.World.Registries.{
  Registries, Events, Changed, PlayerListChange, ListedPlayer, merged, new_player, change_step,
  change_loop, remove_step, remove_loop, emit_players, player_list_changed,
}

-- The entry under `uuid` after the changes that name it, in their order.
abbrev pub merged_all : String → ListedPlayer → List PlayerListChange → ListedPlayer
merged_all uuid player [] = player
merged_all uuid player (change ∷ rest) =
    merged_all uuid (if change.uuid == uuid then merged player change else player) rest

-- The last value that the changes naming `uuid` supply, or the one there was.
abbrev pub last_supplied :
    {X : Type 0}
    → (PlayerListChange → Bool)
    → (PlayerListChange → X)
    → String
    → X
    → List PlayerListChange
    → X
last_supplied supplies value uuid x [] = x
last_supplied supplies value uuid x (change ∷ rest) =
    last_supplied supplies value uuid
      (if change.uuid == uuid && supplies change then value change else x) rest

-- A listed player after the changes, field by field.
abbrev pub listed_after : String → ListedPlayer → List PlayerListChange → ListedPlayer
listed_after uuid player changes = record player {
  name = last_supplied (λ c. c.set_name) (λ c. c.name) uuid player.name changes;
  game_mode = last_supplied (λ c. c.set_game_mode) (λ c. c.game_mode) uuid player.game_mode changes;
  latency = last_supplied (λ c. c.set_latency) (λ c. c.latency) uuid player.latency changes;
  listed = last_supplied (λ c. c.set_listed) (λ c. c.listed) uuid player.listed changes;
}

merged_all_lem :
    (uuid : String) (player : ListedPlayer) (changes : List PlayerListChange)
    → merged_all uuid player changes ≡ listed_after uuid player changes
merged_all_lem uuid player [] = refl
merged_all_lem uuid player (change ∷ rest) = elim (Bool-cases (change.uuid == uuid)) [
  | inl named ↦ rw named (merged_all_lem uuid (merged player change) rest)
  | inr another ↦ rw another (merged_all_lem uuid player rest)
]

abbrev pub member : String → List String → Bool
member uuid [] = false
member uuid (x ∷ xs) = x == uuid || member uuid xs

lookup-change_step :
    (s : Registries) (done : Changed) (change : PlayerListChange) (uuid : String)
    (player : ListedPlayer)
    → Map.lookup uuid s.players ≡ some player
    → Map.lookup uuid (change_step (s, done) change).0.players
      ≡ some (if change.uuid == uuid then merged player change else player)
unfolding change_step
lookup-change_step s done change uuid player known =
    elim (Option-cases (Map.lookup change.uuid s.players)) [
      | inl e ↦
          rw (e, change_step)
            (ground (
              arith,
              known,
              e,
              ==_iff change.uuid uuid,
              lookup-insert change.uuid uuid (merged (new_player change.uuid) change) s.players,
            ))
      | inr (old, e) ↦
          rw (e, change_step)
            (ground (
              arith,
              known,
              e,
              ==_iff change.uuid uuid,
              lookup-insert change.uuid uuid (merged old change) s.players,
            ))
    ]

lookup-change_loop :
    (s : Registries) (done : Changed) (changes : List PlayerListChange) (uuid : String)
    (player : ListedPlayer)
    → Map.lookup uuid s.players ≡ some player
    → Map.lookup uuid (change_loop (s, done) changes).0.players
      ≡ some (merged_all uuid player changes)
unfolding change_loop
lookup-change_loop s done [] uuid player known = known
lookup-change_loop s done (change ∷ rest) uuid player known =
    let t = change_step (s, done) change in
    lookup-change_loop t.0 t.1 rest uuid _ (lookup-change_step s done change uuid player known)

lookup-remove_step :
    (s : Registries) (gone : List String) (uuid x : String)
    → Map.lookup uuid (remove_step (s, gone) x).0.players
      ≡ (if x == uuid then none else Map.lookup uuid s.players)
unfolding remove_step
lookup-remove_step s gone uuid x = ground (arith, lookup-delete x uuid s.players, ==_iff x uuid)

lookup-remove_loop :
    (s : Registries) (gone removed : List String) (uuid : String)
    → Map.lookup uuid (remove_loop (s, gone) removed).0.players
      ≡ (if member uuid removed then none else Map.lookup uuid s.players)
unfolding remove_loop
lookup-remove_loop s gone [] uuid = refl
lookup-remove_loop s gone (x ∷ rest) uuid =
    let t = remove_step (s, gone) x in
    ground (arith, lookup-remove_loop t.0 t.1 rest uuid, lookup-remove_step s gone uuid x)

players-emit_players :
    (s : Registries) (gone : List String) (done : Changed) (c : Events)
    → (emit_players (s, gone) done c).0.players ≡ s.players
unfolding emit_players
players-emit_players s gone done c = ground arith

-- A packet leaves a listed player that it removes unlisted, and any other listed with each of the name,
-- the game mode, the latency and the listing as the last change to supply it does, or as it was where
-- none does.
pub lookup-player_list_changed :
    (s : Registries) (c : Events) (changes : List PlayerListChange) (removed : List String)
    (uuid : String) (player : ListedPlayer)
    → Map.lookup uuid s.players ≡ some player
    → Map.lookup uuid (player_list_changed s c changes removed).0.players
      ≡ (if member uuid removed then none else some (listed_after uuid player changes))
unfolding player_list_changed
lookup-player_list_changed s c changes removed uuid player known =
    let start : Changed = record { added = []; updated = [] } in
    let t = change_loop (s, start) changes in
    let u = remove_loop (t.0, []) removed in
    rw (players-emit_players u.0 u.1 t.1 c) (
      lookup-remove_loop t.0 [] removed uuid
      ∙ rw
          (lookup-change_loop s start changes uuid player known, merged_all_lem uuid player changes)
          refl)
