-- ===== src/Client/Construction/Tests.antt =====
-- Concrete runs of client/client.go, with numbers for the parts of the world.
use headless_minecraft.Base.{
  ℕ, ◌+◌, ◌&&◌, ◌≡◌, refl, true, Option, none, some, List, [], ◌∷◌, leb, if◌then◌else◌, ◌==◌,
  nat_key,
}
use headless_minecraft.Safety.{Unicode, Text, Authorization, scope_observe}
use headless_minecraft.World.Core.{World, Reducer, new_world}
use headless_minecraft.Client.Construction.{
  WireProfile, Setting, with_address, with_auth, with_version, with_authorization, with_world,
  new_client, rejected, empty_address, if_configured, set_options, set_option,
}
use headless_minecraft.Client.Construction.Settings.{Holds, IsReady, new_client-IsReady}

abbrev ascii : Unicode
ascii = record { is_space = λ c. c == 32; lower = λ c. if leb 65 c && leb c 90 then c + 32 else c }

-- `ho:25`
abbrev server : Text
server = 104 ∷ 111 ∷ 58 ∷ 50 ∷ 53 ∷ []

abbrev counting : Reducer ℕ ℕ ℕ ℕ ℕ
counting = λ context batch c menus others. record {
  context = context;
  collector = c;
  menus = menus;
  others = others + 1;
  failure = none;
}

abbrev java : WireProfile (World ℕ ℕ ℕ ℕ ℕ) (Reducer ℕ ℕ ℕ ℕ ℕ)
java = record {
  id = "java/1.8.9";
  protocol_id = some "47";
  adapter_id = some "47";
  reducers = some (λ w. some counting ∷ []);
  limits_valid = true;
  readiness = true;
  collector = true;
  outbox = true;
}

abbrev observing : Authorization
observing = record { endpoint = server; scopes = scope_observe ∷ [] }

abbrev all_set : List (Option (Setting ℕ ℕ ℕ ℕ ℕ ℕ ℕ))
all_set =
    some (with_address server)
    ∷ some (with_auth (some 1))
    ∷ some (with_version java)
    ∷ some (with_authorization observing)
    ∷ some (with_world (some (new_world 0 0)))
    ∷ []

new_client-IsReady_example : Holds (IsReady ascii) (new_client ascii all_set)
new_client-IsReady_example = new_client-IsReady ascii all_set

without_address :
    new_client {P = ℕ} {E = ℕ} {Menus = ℕ} {Others = ℕ} {Err = ℕ} {Provider = ℕ} {Logger = ℕ} ascii
      (some (with_address []) ∷ [])
    ≡ rejected empty_address
unfolding new_client if_configured set_options set_option
without_address = refl
