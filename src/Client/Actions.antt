-- ===== src/Client/Actions.antt =====
-- client/action.go: what a client sends. `Wire` is the adapter's
-- EncodeAction, the writer, and the event of a sent packet; a packet is any type. The writer is what it
-- answers to a packet. The client's world may be missing.
pub mod Sending
use headless_minecraft.Base.{
  ℕ, ◌+◌, ◌-◌, ◌%◌, ◌^◌, Bool, true, false, not, ◌&&◌, Option, none, some, List, [], ◌∷◌, ◌++◌, map,
  ℤ, pos, negsuc, String, ltb, is_some, if◌then◌else◌, ◌==◌, int_key,
}
use headless_minecraft.Base.Map
use headless_minecraft.Event.{Event, Stamped, Collector, new_collector, one}
use headless_minecraft.Event.Containers.{ContainerEvent}
use headless_minecraft.Version.Actions.{
  Action, respawn, click_slot, close_window, ClickMode, pickup, ClickSlot, Face, Cursor,
}
use headless_minecraft.World.Core.{World, WorldError, Mutate, snapshot, amend}
use headless_minecraft.World.Containers.{
  Container, Containers, SlotSnapshot, Pending, Events, closed, cursor_changed,
}
use headless_minecraft.World.Containers.Clicks.{ClickError, click, reject}
use headless_minecraft.Client.Subscription.{Fanout, publish}

pub data ClientError (Err : Type 0) : Type 0 where
  nil_action : ClientError Err
  not_dead : ClientError Err
  client_closed : ClientError Err
  no_connection : ClientError Err
  still_negotiating : ClientError Err
  encode_failed : Err → ClientError Err
  write_failed : Err → ClientError Err
  unknown_container : ℤ → ClientError Err
  unpredictable : ClickMode → ℤ → ClientError Err
  not_recorded : WorldError Err → ClientError Err
  unknown_entity : ℤ → ClientError Err
  not_placed : ℤ → ClientError Err
  out_of_reach : ℤ → ClientError Err
  dig_cancelled : Err → ClientError Err
  cancel_failed : Err → ClientError Err → ClientError Err

pub data Encoded (Packet Err : Type 0) : Type 0 where
  packet : Packet → Encoded Packet Err
  not_encoded : Err → Encoded Packet Err

module _ (F32 F64 Packet E Err Item : Type 0) where
  pub record Wire : Type 0 where
    pub encode_action : Action F32 F64 Item → Encoded Packet Err
    pub write : Packet → Option Err
    pub packet_sent : Packet → E

module _ (P E Others Err Packet Item : Type 0) where
  -- The parts of `Client` that sending and the read loop read and write; `written` is what the writer has
  -- accepted.
  pub record Client : Type 0 where
    pub is_closed : Bool
    pub connected : Bool
    pub in_play : Bool
    pub reported_end : Bool
    pub last_state : String
    pub clicks : ℕ
    pub world : Option (World P E (Containers Item) Others Err)
    pub fanout : Fanout E
    pub written : List Packet

module _ {P E Others Err Packet Item : Type 0} where
  -- `outbound`, which refuses or not.
  unfoldable pub outbound : Client P E Others Err Packet Item → Option (ClientError Err)
  outbound c =
      if c.is_closed
      then some client_closed
      else if not c.connected
      then some no_connection
      else if not c.in_play
      then some still_negotiating
      else none

  unfoldable pub enter_play : Client P E Others Err Packet Item → Client P E Others Err Packet Item
  enter_play c = record c { in_play = true }

  -- What a part of the snapshot says, or that it is the zero snapshot: of no world, or a poisoned one.
  unfoldable pub seen :
      {X : Type 0}
      → Client P E Others Err Packet Item
      → (Containers Item → Others → Option X)
      → Option X
  seen c look = elim c.world [
    | none ↦ none
    | some w ↦ elim (snapshot w).0 [ none ↦ none | some s ↦ look s.menus s.others ]
  ]

  abbrev pub publish_to_all :
      Event E
      → Client P E Others Err Packet Item
      → List (Stamped E)
      → Client P E Others Err Packet Item
  publish_to_all event c es = record c { fanout = publish event c.fanout es }

  -- `world.Amend`, which a client with no world does not survive: `none` is the panic.
  unfoldable pub amend_world :
      Client P E Others Err Packet Item
      → Mutate E (Containers Item) Err
      → Option (Client P E Others Err Packet Item × List (Stamped E) × Option (WorldError Err))
  amend_world c mutate = elim c.world [
    | none ↦ none
    | some w ↦
        let (next, es, failure) = amend w mutate in
        some (record c { world = some next }, es, failure)
  ]

module _ {F32 F64 P E Others Err Packet Item : Type 0} (event : Event E)
    (wire : Wire F32 F64 Packet E Err Item) (is_dead : Others → Bool) where
  -- Whether `c.World().Player.Dead`.
  abbrev pub dead : Client P E Others Err Packet Item → Bool
  dead c = is_some (seen c (λ menus others. if is_dead others then some others else none))

  -- A respawn of a player that is not dead.
  abbrev pub respawns_alive : Client P E Others Err Packet Item → Action F32 F64 Item → Bool
  respawns_alive c action = elim action [ respawn ↦ not (dead c) | _ ↦ false ]

  abbrev pub write_packet :
      Client P E Others Err Packet Item
      → Packet
      → Client P E Others Err Packet Item × Option (ClientError Err)
  write_packet c p = elim (wire.write p) [
    | some e ↦ (c, some (write_failed e))
    | none ↦ (
      publish_to_all event (record c { written = c.written ++ p ∷ [] })
          (one (wire.packet_sent p) 0),
      none,
    )
  ]

  abbrev pub send_out :
      Client P E Others Err Packet Item
      → Action F32 F64 Item
      → Client P E Others Err Packet Item × Option (ClientError Err)
  send_out c action = elim (outbound c) [
    | some e ↦ (c, some e)
    | none ↦ elim (wire.encode_action action) [
      | not_encoded e ↦ (c, some (encode_failed e))
      | packet p ↦ write_packet c p
    ]
  ]

  -- `Do`; `none` is a nil action.
  unfoldable pub do_action :
      Client P E Others Err Packet Item
      → Option (Action F32 F64 Item)
      → Client P E Others Err Packet Item × Option (ClientError Err)
  do_action c none = (c, some nil_action)
  do_action c (some action) =
      if respawns_alive c action then (c, some not_dead) else send_out c action
