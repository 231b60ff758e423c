-- ===== src/Client/Tests.antt =====
-- Concrete runs of client/action.go, window.go, attack.go and dig.go, with numbers for items, packets and errors.
use headless_minecraft.Base.{
  ◌+◌, ◌-◌, ◌*◌, ◌==◌, leb, not, is_some, ◌⊎◌, if◌then◌else◌, ℕ, zero, suc, ◌≡◌, refl, arith, Bool,
  true, false, Option, none, some, List, [], ◌∷◌, ℤ, pos, int_key,
}
use headless_minecraft.Base.Map
use headless_minecraft.Base.Map.{Map}
use headless_minecraft.Event.{Event, domain_containers}
use headless_minecraft.Event.Containers.{ContainerEvent}
use headless_minecraft.Version.Actions.{pickup, swing, main_hand, BlockPos, top}
use headless_minecraft.World.Core.{World, new_world}
use headless_minecraft.World.Containers.{
  Container, Containers, new_container, new_containers, Pending,
}
use headless_minecraft.World.Containers.Clicks.{ClickError, index_of}
use headless_minecraft.Client.Actions.{Client, Wire, packet, do_action, outbound, seen, amend_world}
use headless_minecraft.Client.Actions.Sending.{IsDone, do_action-IsSent}
use headless_minecraft.Client.Hands.{
  Metric, Position, Body, elapsed, attack_on, attack_entity, dig_block,
}
use headless_minecraft.Client.Hands.Sequences.{
  InOrder, IsInReach, Dug, attack_entity-IsInReach, dig_block-Dug,
}
use headless_minecraft.Client.Windows.{
  Menus, Plan, click_window, perform_click, close_open_window, plan_pickup,
}
use headless_minecraft.Client.Windows.Rollback.{IsUndone, click_window-IsUndone}
use headless_minecraft.Client.Windows.Overflow.{IsKept, perform_click-IsKept}

abbrev plain : Event ℕ
plain = record { name = λ e. ""; domain = λ e. domain_containers }

abbrev broken : Wire ℕ ℕ ℕ ℕ ℕ ℕ
broken = record { encode_action = λ a. packet 7; write = λ p. some 1; packet_sent = λ p. p }

abbrev working : Wire ℕ ℕ ℕ ℕ ℕ ℕ
working = record broken { write = λ p. none }

abbrev alive : ℕ → Bool
alive n = false

abbrev stacked : Menus ℕ
stacked = record { is_47 = true; stack_empty = some (λ item. false); crafter = none }

abbrev lift : ContainerEvent → ℕ
lift e = 0

abbrev refusal : ClickError → ℕ
refusal e = 0

abbrev in_order : Map ℤ (Option ℕ) → List (ℤ × Option ℕ)
in_order m = m

abbrev chest : Container ℕ
chest = record (new_container (pos 5)) { slots = (pos 3, some 9) ∷ [] }

abbrev one_chest : Containers ℕ
one_chest = record new_containers { open_menus = (pos 5, chest) ∷ [] }

abbrev observed : World ℕ ℕ (Containers ℕ) ℕ ℕ
observed = new_world one_chest 0

abbrev playing : Client ℕ ℕ ℕ ℕ ℕ ℕ
playing = record {
  is_closed = false;
  connected = true;
  in_play = true;
  reported_end = false;
  last_state = "";
  clicks = 0;
  world = some observed;
  fanout = record { heap = []; next = 0; subs = [] };
  written = [];
}

do_action-IsSent_example :
    IsDone plain working alive playing
      (swing main_hand)
      (do_action plain working alive playing (some (swing main_hand)))
do_action-IsSent_example = do_action-IsSent plain working alive playing (swing main_hand)

click_window-IsUndone_example : IsUndone one_chest (pos 5) (
    click_window plain broken alive stacked lift refusal in_order playing
      (pos 5)
      (pos 3)
      (pos 0)
      pickup)
unfolding index_of Map.lookup
click_window-IsUndone_example =
    click_window-IsUndone plain broken alive stacked lift refusal in_order (λ Q m h. h) (λ p. refl)
      playing observed chest (pos 5) (pos 3) (pos 0) pickup refl refl refl (omega arith) refl refl

-- So many pending clicks under one sequence.
abbrev waiting : ℕ → List (Pending ℕ)
waiting zero = []
waiting (suc n) =
    record {
      sequence = pos 500;
      window = pos 5;
      before = [];
      cursor_before = none;
      cursor_held = false;
    }
    ∷ waiting n

abbrev crowded : World ℕ ℕ (Containers ℕ) ℕ ℕ
crowded = record observed { menus = record one_chest { pending = waiting 256 } }

-- Taking the chest's stack up.
abbrev takes : Plan ℕ
takes = plan_pickup true false (some 9) none (pos 3)

perform_click-IsKept_example :
    IsKept
      (record one_chest { pending = waiting 256 })
      takes
      (perform_click plain broken alive stacked lift refusal in_order
        (record playing { world = some crowded })
        takes
        (pos 5)
        (pos 3)
        (pos 0)
        pickup)
unfolding index_of
perform_click-IsKept_example =
    perform_click-IsKept plain broken alive stacked lift refusal in_order
      (record playing { world = some crowded }) crowded takes (pos 5) (pos 3) (pos 0) pickup refl
      refl refl refl refl (λ p. refl)

-- A client with no world that closes a window: the packet is written, and then `CloseWindow` panics.
close_without_world :
    close_open_window plain working alive stacked lift refusal in_order
      (record playing { world = none })
      (pos 5)
    ≡ none
unfolding close_open_window do_action outbound seen amend_world
close_without_world = refl

abbrev metric : Metric ℕ
metric = record {
  add = λ a b. a + b;
  sub = λ a b. a - b;
  mul = λ a b. a * b;
  sqrt = λ a. a;
  exceeds = λ a b. not (leb a b);
  attack_reach = 9;
  creative_attack_reach_18 = 36;
  creative_attack_reach_26 = 25;
  eye_height = 0;
}

-- Entity 1 stands two blocks away, and no other one is tracked.
abbrev sight : ℕ → ℤ → Option (Position ℕ)
sight others target = if target == pos 1 then some (record { x = 2; y = 0; z = 0 }) else none

abbrev body : ℕ → Body ℕ
body others = record { placed = true; game_mode = 0; position = record { x = 0; y = 0; z = 0 } }

attack_entity-IsInReach_example :
    let r = attack_entity plain working alive metric true sight body playing (pos 1) in
    ((is_some r.1 ≡ true) × (r.0 ≡ playing))
    ⊎ (IsInReach plain working alive metric true sight body playing (pos 1)
        × InOrder plain working alive playing (swing main_hand) (attack_on (pos 1)) r)
attack_entity-IsInReach_example =
    attack_entity-IsInReach plain working alive metric true sight body playing (pos 1)

abbrev stone : BlockPos
stone = record { x = pos 3; y = pos 64; z = pos 3 }

dig_block-Dug_example :
    Dug plain working alive playing stone top
      (pos 20)
      elapsed
      (λ c. c)
      (dig_block plain working alive playing stone top (pos 20) elapsed (λ c. c))
dig_block-Dug_example =
    dig_block-Dug plain working alive playing stone top (pos 20) elapsed (λ c. c)
