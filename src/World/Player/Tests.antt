-- ===== src/World/Player/Tests.antt =====
-- A concrete run of world/player.go, with numbers for floats.
use headless_minecraft.Base.{ℕ, ◌+◌, ◌≡◌, refl, true, false}
use headless_minecraft.Event.{new_collector}
use headless_minecraft.World.Floats.{Floats}
use headless_minecraft.World.Player.{Player, Events, Relative, new_player, respawn, look}

abbrev numbers : Floats ℕ ℕ
numbers = record { zero_32 = 0; zero_64 = 0; add_32 = λ a b. a + b; add_64 = λ a b. a + b }

abbrev far : Player ℕ ℕ
far = record (new_player numbers) { x = 100; y = 64; z = 7; placed = true }

abbrev no_events : Events ℕ ℕ
no_events = new_collector

abbrev absolute : Relative
absolute = record { x = false; y = false; z = false; yaw = false; pitch = false }

-- After the respawn the player is not placed; a rotation then counts it as placed, where it stood
-- before.
rotation_places_player :
    let t = respawn far no_events "minecraft:the_nether" 0 in
    let u = (look numbers t.0 t.1 90 0 absolute).0 in
    (t.0.placed ≡ false) × (u.placed ≡ true) × (u.x ≡ 100)
unfolding respawn look new_player
rotation_places_player = (refl, refl, refl)
