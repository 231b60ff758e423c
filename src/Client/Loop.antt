-- ===== src/Client/Loop.antt =====
-- client/loop.go: the read loop over what the stream hands it, one turn per receipt, with the watch for
-- terrain here, the loop's body in Turns and how a session ends (client/close.go) in Ends. A turn has the times that its two calls of `time.Now` read. The adapter's handlers
-- and its readiness rule have a state of their own, of any type; they, the writer, and the events that
-- the loop makes are parameters. Handlers reach the collector and the outbox through pointers, so they
-- take and return them.
pub mod Turns
pub mod Ends
mod Tests
use headless_minecraft.Base.{
  ℕ, zero, suc, ◌+◌, ◌-◌, String, string_key, Bool, true, false, not, ◌&&◌, ◌||◌, Option, none,
  some, List, [], ◌∷◌, ◌++◌, leb, if◌then◌else◌, ◌==◌, is_some, ℤ,
}
use headless_minecraft.Base.Map
use headless_minecraft.Base.Map.{Map}
use headless_minecraft.Event.{Event, Stamped, Collector, new_collector, emit, events, reset, one}
use headless_minecraft.Version.Packet.{Packet}
use headless_minecraft.Version.Batch.{
  Batch, Batcher, incomplete, complete, too_large, accept, finish,
}
use headless_minecraft.Version.Outbox.{Outbox, drain}
use headless_minecraft.World.Core.{World, WorldError, apply}
use headless_minecraft.World.Containers.{Containers}
use headless_minecraft.Client.Subscription.{Fanout, publish, close_all}
use headless_minecraft.Client.Actions.{Client, enter_play}

-- `terrainWatch`; a time is `none` where it is the zero time.
pub record TerrainWatch : Type 0 where
  pub grace : ℕ
  pub ready_at : Option ℕ
  pub seen : Bool
  pub said : Bool

abbrev pub chunk_loaded : String
chunk_loaded = "world.chunk_loaded"

abbrev pub session_disconnected : String
session_disconnected = "session.disconnected"

module _ {E : Type 0} (event : Event E) where
  -- Whether one of the events has a name.
  unfoldable pub has_name : String → List (Stamped E) → Bool
  has_name name [] = false
  has_name name (e ∷ es) = event.name e.event == name || has_name name es

  unfoldable pub observe_since : TerrainWatch → ℕ → TerrainWatch × Option ℕ
  observe_since w since =
      if leb w.grace since then (record w { said = true }, some since) else (w, none)

  -- `terrainWatch.observe`: how long the terrain has been missing, where that is to be said.
  unfoldable pub observe : TerrainWatch → ℕ → List (Stamped E) → TerrainWatch × Option ℕ
  observe w now es = if w.seen || w.said then (w, none) else elim w.ready_at [
    | none ↦ (w, none)
    | some at ↦
        if has_name chunk_loaded es
        then (record w { seen = true }, none)
        else observe_since w (now - at)
  ]

-- `ReadyState` of version/readiness.go.
pub record ReadyState : Type 0 where
  pub ready : Bool
  pub entity_id : ℤ
  pub dimension : String
  pub game_mode : ℕ

pub data LoopError (Err : Type 0) : Type 0 where
  receive_failed : Err → LoopError Err
  bundle_too_large : ℕ → LoopError Err
  bundle_unterminated : ℕ → LoopError Err
  dispatch_failed : Err → LoopError Err
  write_failed : Err → LoopError Err
  readiness_failed : Err → LoopError Err
  apply_failed : WorldError Err → LoopError Err

-- What `Receive` answers: a packet, io.EOF or another error.
pub data Receipt (P Err : Type 0) : Type 0 where
  packet : P → Receipt P Err
  end_of_file : Receipt P Err
  failed : Err → Receipt P Err

pub record Turn (P Err : Type 0) : Type 0 where
  pub receipt : Receipt P Err
  pub checked : ℕ
  pub placed : ℕ

-- What a loop has come to after some receipts: it waits for the next one, or has returned.
pub data Ending (Err : Type 0) : Type 0 where
  waiting : Ending Err
  returned : Option (LoopError Err) → Ending Err

-- One call of `publish`, by the place that it is made in.
pub data Publication (E : Type 0) : Type 0 where
  of_batch : List (Stamped E) → Publication E
  of_terrain : List (Stamped E) → Publication E
  of_ready : List (Stamped E) → Publication E

pub record Handled (P E H Err : Type 0) : Type 0 where
  pub handlers : H
  pub collector : Collector E
  pub outbox : Outbox P
  pub failure : Option Err

-- `Handler.Handle`
abbrev pub Handler : Type 0 → Type 0 → Type 0 → Type 0 → Type 0
Handler P E H Err = P → H → Collector E → Outbox P → Handled P E H Err

-- What the loop is given: the table of `tableDispatcher`, or none; `ReadinessRule`; the writer; and the
-- events PacketReceived, PacketSent, Ready, ObservationMissing and Disconnected.
pub record Session (P E H R Err : Type 0) : Type 0 where
  pub handlers : Option (Map String (Handler P E H Err))
  pub observe_readiness : Batch P → R → R × ReadyState × List P × Option Err
  pub write : P → Option Err
  pub packet_received : P → Bool → E
  pub packet_sent : P → E
  pub ready : ReadyState → E
  pub observation_missing : ℕ → E
  pub disconnected : String → String → E

module _ (P E H R Others Err Item : Type 0) where
  -- The client with the loop's own variables. `published` is what the loop has published, for statements.
  pub record Loop : Type 0 where
    pub client : Client P E Others Err P Item
    pub batcher : Batcher P
    pub collector : Collector E
    pub outbox : Outbox P
    pub handlers : H
    pub rule : R
    pub watch : Option TerrainWatch
    pub ready_sent : Bool
    pub signalled : Option ReadyState
    pub packet_state : String
    pub published : List (Publication E)

  -- A part of a turn: what it leaves, and the error that returns from the loop.
  abbrev pub Step : Type 0
  Step = Loop × Option (LoopError Err)

module _ {P E H R Others Err Item : Type 0} where
  abbrev pub and_then :
      Step P E H R Others Err Item
      → (Loop P E H R Others Err Item → Step P E H R Others Err Item)
      → Step P E H R Others Err Item
  and_then s f = elim s.1 [ none ↦ f s.0 | some e ↦ s ]

module _ {E : Type 0} where
  abbrev pub events_of : Publication E → List (Stamped E)
  events_of p = elim p [ of_batch es ↦ es | of_terrain es ↦ es | of_ready es ↦ es ]

module _ {Err : Type 0} where
  abbrev pub ending_of : Option (LoopError Err) → Ending Err
  ending_of failure = elim failure [ none ↦ waiting | some e ↦ returned (some e) ]
