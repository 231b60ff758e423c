-- ===== src/Client/Actions/Sending.antt =====
-- client/action.go: what a call of `Do` leaves.
use headless_minecraft.Base.{
  ◌≡◌, refl, arith, ◌⊎◌, inl, inr, Bool, true, false, not, ◌&&◌, Option, none, some, [], ◌∷◌, ◌++◌,
  is_some, Bool-cases, Option-cases,
}
use headless_minecraft.Event.{Event, one}
use headless_minecraft.Version.Actions.{Action}
use headless_minecraft.Client.Actions.{
  Client, ClientError, Wire, Encoded, packet, not_encoded, encode_failed, outbound, respawns_alive,
  write_packet, send_out, do_action, publish_to_all,
}

module _ {F32 F64 P E Others Err Packet Item : Type 0} (event : Event E)
    (wire : Wire F32 F64 Packet E Err Item) (is_dead : Others → Bool) where
  -- A call that sent: the packet is the action's and was accepted, the client may send, and the client is
  -- as before but for one more written packet and one published event.
  pub record IsSent (c next : Client P E Others Err Packet Item) (action : Action F32 F64 Item)
      : Type 0 where
    pub p : Packet
    pub encoded : wire.encode_action action ≡ packet p
    pub accepted : wire.write p ≡ none
    pub ready : (not c.is_closed && c.connected && c.in_play) ≡ true
    pub alive : respawns_alive event wire is_dead c action ≡ false
    pub left :
        next
        ≡ publish_to_all event
            (record c { written = c.written ++ p ∷ [] })
            (one (wire.packet_sent p) 0)

  outbound_ready :
      (c : Client P E Others Err Packet Item)
      → outbound c ≡ none
      → (not c.is_closed && c.connected && c.in_play) ≡ true
  unfolding outbound
  outbound_ready c h = ground (arith, h)

  -- Of the two parts of what `Do` returns: an error with the client as it was, or a send.
  abbrev pub IsDone :
      Client P E Others Err Packet Item
      → Action F32 F64 Item
      → Client P E Others Err Packet Item × Option (ClientError Err)
      → Type 0
  IsDone c action r = ((is_some r.1 ≡ true) × (r.0 ≡ c)) ⊎ ((r.1 ≡ none) × IsSent c r.0 action)

  encoded-IsDone :
      (c : Client P E Others Err Packet Item) (action : Action F32 F64 Item) (p : Packet)
      → respawns_alive event wire is_dead c action ≡ false
      → outbound c ≡ none
      → wire.encode_action action ≡ packet p
      → IsDone c action (write_packet event wire is_dead c p)
  encoded-IsDone c action p alive ready encoded = elim (Option-cases (wire.write p)) [
    | inr (e, refused) ↦ rw (write_packet, refused) (inl (refl, refl))
    | inl accepted ↦
        rw (write_packet, accepted)
          (inr (
            refl,
            record {
              p = p;
              encoded = encoded;
              accepted = accepted;
              ready = outbound_ready c ready;
              alive = alive;
              left = refl;
            },
          ))
  ]

  send_out-IsDone :
      (c : Client P E Others Err Packet Item) (action : Action F32 F64 Item)
      → respawns_alive event wire is_dead c action ≡ false
      → IsDone c action (send_out event wire is_dead c action)
  send_out-IsDone c action alive = elim (Option-cases (outbound c)) [
    | inr (e, refused) ↦ rw (send_out, refused) (inl (refl, refl))
    | inl ready ↦ rw (send_out, ready) (go (wire.encode_action action) refl ready)
  ]
    where
      go :
          (result : Encoded Packet Err)
          → wire.encode_action action ≡ result
          → outbound c ≡ none
          → IsDone c action (elim result [
            | not_encoded e ↦ (c, some (encode_failed e))
            | packet p ↦ write_packet event wire is_dead c p
          ])
      go (not_encoded e) encoded ready = inl (refl, refl)
      go (packet p) encoded ready = encoded-IsDone c action p alive ready encoded

  -- A call of `Do` either returns an error, and then the client is what it was, nothing was written and
  -- nothing published; or it returns none, and then the client was in play, connected and not closed, an
  -- asked-for respawn was of a dead player, and exactly one packet, the action's encoding, was written and
  -- published as sent.
  pub do_action-IsSent :
      (c : Client P E Others Err Packet Item) (action : Action F32 F64 Item)
      → let (next, failure) = do_action event wire is_dead c (some action) in
        ((is_some failure ≡ true) × (next ≡ c)) ⊎ ((failure ≡ none) × IsSent c next action)
  unfolding do_action
  do_action-IsSent c action = elim (Bool-cases (respawns_alive event wire is_dead c action)) [
    | inl alive ↦ rw alive (inl (refl, refl))
    | inr dead ↦ rw dead (send_out-IsDone c action dead)
  ]
