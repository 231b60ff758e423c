-- ===== src/Client/Loop/Ends.antt =====
-- client/loop.go and client/close.go: how a loop starts, and what the client does once it has stopped.
pub mod Reports
use headless_minecraft.Base.{
  ℕ, zero, suc, ◌+◌, ◌-◌, String, string_key, Bool, true, false, not, ◌&&◌, ◌||◌, Option, none,
  some, List, [], ◌∷◌, ◌++◌, leb, if◌then◌else◌, ◌==◌, is_some, ℤ,
}
use headless_minecraft.Base.Map
use headless_minecraft.Base.Map.{Map}
use headless_minecraft.Event.{Event, Stamped, Collector, new_collector, emit, events, reset, one}
use headless_minecraft.Version.Packet.{Packet}
use headless_minecraft.Version.Batch.{
  Batch, Batcher, incomplete, complete, too_large, accept, finish,
}
use headless_minecraft.Version.Outbox.{Outbox, drain}
use headless_minecraft.World.Core.{World, WorldError, apply}
use headless_minecraft.World.Containers.{Containers}
use headless_minecraft.Client.Subscription.{Fanout, publish, close_all}
use headless_minecraft.Client.Actions.{Client, enter_play}
use headless_minecraft.Client.Loop.{
  TerrainWatch, chunk_loaded, session_disconnected, has_name, observe, ReadyState, LoopError,
  receive_failed, bundle_too_large, bundle_unterminated, dispatch_failed, write_failed,
  readiness_failed, apply_failed, Receipt, packet, end_of_file, failed, Turn, Ending, waiting,
  returned, Publication, of_batch, of_terrain, of_ready, Handled, Handler, Session, Loop, Step,
  and_then, events_of, ending_of,
}

module _ {Err : Type 0} (is_ended : LoopError Err → Bool) (text : LoopError Err → String) where
  -- The reason of a session that ended on its own.
  abbrev pub reason_of : Option (LoopError Err) → String
  reason_of none = "the connection ended without a disconnect"
  reason_of (some e) = if is_ended e then "the connection ended without a disconnect" else text e

module _ {P E H R Others Err Item : Type 0} where
  -- The loop as it begins, with what `Connect` hands it.
  unfoldable pub start_loop :
      Client P E Others Err P Item
      → ℕ
      → Batcher P
      → Collector E
      → Outbox P
      → H
      → R
      → Loop P E H R Others Err Item
  start_loop c grace batcher collector outbox handlers rule = record {
    client = c;
    batcher = batcher;
    collector = collector;
    outbox = outbox;
    handlers = handlers;
    rule = rule;
    watch =
        if is_some c.world
        then some (record { grace = grace; ready_at = none; seen = false; said = false })
        else none;
    ready_sent = false;
    signalled = none;
    packet_state = "";
    published = [];
  }

module _ {P E Others Err Item : Type 0} where
  -- `currentState` of a stream that answers with a state or not.
  abbrev pub current_state : Option String → Client P E Others Err P Item → String
  current_state (some state) c = state
  current_state none c = if c.last_state == "" then "unknown" else c.last_state

module _ {P E H R Others Err Item : Type 0} (event : Event E) (session : Session P E H R Err)
    (is_ended : LoopError Err → Bool) (text : LoopError Err → String) where
  -- `publishDisconnect`
  unfoldable pub publish_disconnect :
      Option (LoopError Err)
      → Option String
      → Client P E Others Err P Item
      → Client P E Others Err P Item
  publish_disconnect err stream c = if c.reported_end then c else record c {
    fanout =
        publish event c.fanout
          (one (session.disconnected (reason_of is_ended text err) (current_state stream c)) 0);
  }

  -- `loopFinished`
  unfoldable pub loop_finished :
      Option (LoopError Err)
      → Option String
      → Client P E Others Err P Item
      → Client P E Others Err P Item
  loop_finished err stream c = if c.is_closed then c else publish_disconnect err stream c

  -- `Close`, but for the stream's shutdown: the loop has stopped before Closed is published.
  unfoldable pub close_client : E → Client P E Others Err P Item → Client P E Others Err P Item
  close_client closed c =
      if c.is_closed
      then c
      else record c { is_closed = true; fanout = close_all (publish event c.fanout (one closed 0)) }
