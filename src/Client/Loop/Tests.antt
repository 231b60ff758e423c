-- ===== src/Client/Loop/Tests.antt =====
-- Concrete runs of client/loop.go and client/close.go: packets and events are numbers, packet 1 places
-- the player, event 3 is a loaded chunk and event 9 a disconnect.
use headless_minecraft.Base.{
  ℕ, ◌≡◌, refl, Bool, true, false, ◌||◌, none, some, List, [], ◌∷◌, pos, String, if◌then◌else◌,
  ◌==◌, nat_key, string_key,
}
use headless_minecraft.Event.{Event, new_collector, one, domain_world, emit, reset, events}
use headless_minecraft.Version.Packet.{Packet}
use headless_minecraft.Version.Batch.{Batcher, accept, single, finish}
use headless_minecraft.Version.Outbox.{drain}
use headless_minecraft.World.Core.{World, new_world, apply, reduce_all, settle}
use headless_minecraft.World.Containers.{Containers, new_containers}
use headless_minecraft.Client.Actions.{Client, enter_play}
use headless_minecraft.Client.Subscription.{publish, publish_from}
use headless_minecraft.Client.Loop.{
  Session, LoopError, observe, observe_since, Turn, ReadyState, Receipt, packet, end_of_file,
  has_name,
}
use headless_minecraft.Client.Loop.Turns.{
  run_loop, turn, take_accepted, take_batch, take_packets, take_packet, note_state, dispatch,
  collect, send_queued, send, write_one, answer_readiness, apply_batch, report, say, note_end,
  watch_terrain, announce,
}
use headless_minecraft.Client.Loop.Turns.Announcements.{Phase, unplaced, told, advance_all, advance}
use headless_minecraft.Client.Loop.Turns.Publishing.{publish_each, has_ended}
use headless_minecraft.Client.Loop.Ends.{start_loop, loop_finished, reason_of, current_state}
use headless_minecraft.Client.Loop.Ends.Reports.{advance_all-run_loop, loop_finished-run_loop}

abbrev named : Event ℕ
named = record {
  name =
      λ e. if e == 3 then "world.chunk_loaded" else if e == 9 then "session.disconnected" else "";
  domain = λ e. domain_world;
}

abbrev numbered : Packet ℕ
numbered = record { name = λ p. ""; state = λ p. "play"; id = λ p. pos p }

abbrev state_of : Bool → ReadyState
state_of ready = record { ready = ready; entity_id = pos 7; dimension = "overworld"; game_mode = 0 }

-- A packet is received as the event of its number; packet 1 is what the rule waits for.
abbrev plain : Session ℕ ℕ ℕ ℕ ℕ
plain = record {
  handlers = none;
  observe_readiness = λ batch r. elim batch.packets [
    | [] ↦ (r, state_of false, [], none)
    | p ∷ ps ↦ (r, state_of (p == 1), (if p == 1 then 50 ∷ [] else []), none)
  ];
  write = λ p. none;
  packet_received = λ p bundled. p;
  packet_sent = λ p. p;
  ready = λ state. 100;
  observation_missing = λ since. 200;
  disconnected = λ reason state. 9;
}

abbrev observed : World ℕ ℕ (Containers ℕ) ℕ ℕ
observed = new_world new_containers 0

abbrev fresh : Client ℕ ℕ ℕ ℕ ℕ ℕ
fresh = record {
  is_closed = false;
  connected = true;
  in_play = false;
  reported_end = false;
  last_state = "";
  clicks = 0;
  world = some observed;
  fanout = record { heap = []; next = 0; subs = [] };
  written = [];
}

abbrev singly : Batcher ℕ
singly = record { delimiter = ""; limit = 8; pending = []; is_open = false; state = "" }

abbrev at_time : ℕ → Receipt ℕ ℕ → Turn ℕ ℕ
at_time n receipt = record { receipt = receipt; checked = n; placed = n }

-- Placed at 10, quiet at 12 and at 16, and then the end.
abbrev quiet : List (Turn ℕ ℕ)
quiet =
    at_time 10 (packet 1)
    ∷ at_time 12 (packet 4)
    ∷ at_time 16 (packet 4)
    ∷ at_time 17 (packet 4)
    ∷ at_time 18 end_of_file
    ∷ []

abbrev is_ended : LoopError ℕ → Bool
is_ended e = false

abbrev text : LoopError ℕ → String
text e = "failed"

advance_all-run_loop_example :
    (phase : Phase) × (advance_all named unplaced
        (run_loop named numbered plain quiet
          (start_loop fresh 5 singly new_collector (record { packets = [] }) 0 0)).0.published
      ≡ some phase)
advance_all-run_loop_example =
    advance_all-run_loop named numbered plain fresh 5 singly new_collector (record { packets = [] })
      0 0 quiet

loop_finished-run_loop_example :
    let l =
      (run_loop named numbered plain quiet
        (start_loop fresh 5 singly new_collector (record { packets = [] }) 0 0)).0 in
    let last = record l.client { is_closed = false } in
    let heard = publish_each named fresh.fanout l.published in
    (loop_finished named plain is_ended text none none last).fanout ≡ (
      if false || (fresh.reported_end || has_ended named l.published)
      then heard
      else publish named heard
          (one (plain.disconnected (reason_of is_ended text none) (current_state none last)) 0))
loop_finished-run_loop_example =
    loop_finished-run_loop named numbered plain fresh 5 singly new_collector
      (record { packets = [] }) 0 0 is_ended text quiet none none false

-- The terrain has been missing for five units at 16.
quiet_told :
    advance_all named unplaced
      (run_loop named numbered plain quiet
        (start_loop fresh 5 singly new_collector (record { packets = [] }) 0 0)).0.published
    ≡ some told
unfolding advance_all advance run_loop turn take_accepted take_batch take_packets take_packet
    note_state dispatch collect send_queued send write_one answer_readiness apply_batch report say
    note_end watch_terrain announce start_loop observe observe_since has_name accept single finish
    drain apply reduce_all settle emit reset events one enter_play publish publish_from
quiet_told = refl
