-- ===== src/Client/Hands/Sequences.antt =====
-- client/attack.go and client/dig.go: what is written, and in which order.
use headless_minecraft.Base.{
  ◌≡◌, refl, arith, ◌⊎◌, inl, inr, Bool, true, false, Option, none, some, [], ◌∷◌, ◌++◌, ℤ, is_some,
  Bool-cases, Option-cases,
}
use headless_minecraft.Event.{Event}
use headless_minecraft.Version.Actions.{Action, BlockPos, Face, DigStage, main_hand}
use headless_minecraft.World.Containers.{Containers}
use headless_minecraft.Client.Actions.{Client, ClientError, Wire, packet, seen}
use headless_minecraft.Client.Actions.Sending.{do_action-IsSent}
use headless_minecraft.Client.Hands.{
  Position, Body, Metric, Waited, elapsed, cancelled, client_done, is_positive, reach_of, distance,
  do_then, act, attack_on, swing_at, attack_entity, cancel_dig, after_wait, dig_block,
}

module _ {F32 F64 P E Others Err Packet Item : Type 0} (event : Event E)
    (wire : Wire F32 F64 Packet E Err Item) (is_dead : Others → Bool) where
  -- One action's encoding is written after what was written before.
  pub record IsWritten (c next : Client P E Others Err Packet Item) (action : Action F32 F64 Item)
      : Type 0 where
    pub p : Packet
    pub encoded : wire.encode_action action ≡ packet p
    pub written : next.written ≡ c.written ++ p ∷ []

  -- A call that failed before it wrote, or wrote.
  pub data Acted (c : Client P E Others Err Packet Item) (action : Action F32 F64 Item)
      (r : Client P E Others Err Packet Item × Option (ClientError Err)) : Type 0 where
    refused : is_some r.1 ≡ true → r.0 ≡ c → Acted c action r
    wrote : r.1 ≡ none → IsWritten c r.0 action → Acted c action r

  act-Acted :
      (c : Client P E Others Err Packet Item) (action : Action F32 F64 Item)
      → Acted c action (act event wire is_dead c action)
  act-Acted c action = elim (do_action-IsSent event wire is_dead c action) [
    | inl (failed, same) ↦ refused failed same
    | inr (fine, sent) ↦
        wrote fine (record { p = sent.p; encoded = sent.encoded; written = rw (sent.left) refl })
  ]

  -- Two actions, of which the second is sent only after the first.
  pub data InOrder (c : Client P E Others Err Packet Item) (first second : Action F32 F64 Item)
      (r : Client P E Others Err Packet Item × Option (ClientError Err)) : Type 0 where
    neither : is_some r.1 ≡ true → r.0 ≡ c → InOrder c first second r
    one_only : is_some r.1 ≡ true → IsWritten c r.0 first → InOrder c first second r
    both :
        r.1 ≡ none
        → (d : Client P E Others Err Packet Item) → IsWritten c d first
        → IsWritten d r.0 second
        → InOrder c first second r

  do_then-InOrder :
      (c : Client P E Others Err Packet Item) (first second : Action F32 F64 Item)
      → InOrder c first second
          (do_then (act event wire is_dead c first) (λ d. act event wire is_dead d second))
  do_then-InOrder c first second =
      let r = act event wire is_dead c first in
      elim (act-Acted c first) [
        | refused failed same ↦ elim (Option-cases r.1) [
          | inl fine ↦ absurd (ground (arith, failed, fine))
          | inr (e, is_error) ↦ rw (do_then, is_error) (neither failed same)
        ]
        | wrote fine written ↦
            rw (do_then, fine)
              (elim (act-Acted r.0 second) [
                | refused failed same ↦ one_only failed (rw same written)
                | wrote ok last ↦ both ok r.0 written last
              ])
      ]

  module _ (m : Metric F64) (is_47 : Bool) (sight : Others → ℤ → Option (Position F64))
      (body : Others → Body F64) where
    -- What the snapshot says of an entity that may be attacked.
    pub record IsInReach (c : Client P E Others Err Packet Item) (target : ℤ) : Type 0 where
      pub entity : Position F64
      pub player : Body F64
      pub sighted :
          seen {X = Position F64 × Body F64} c (λ menus others. elim (sight others target) [
            | none ↦ none
            | some entity ↦ some (entity, body others)
          ])
          ≡ some (entity, player)
      pub placed : player.placed ≡ true
      pub near :
          m.exceeds (distance m entity player.position) (reach_of m is_47 player.game_mode) ≡ false

    -- An attack either fails with the client as it was; or the target is tracked and in reach of a placed
    -- player, and what is written is nothing, the swing, or the swing and then the attack, the last where
    -- and only where the call returns no error.
    pub attack_entity-IsInReach :
        (c : Client P E Others Err Packet Item) (target : ℤ)
        → let r = attack_entity event wire is_dead m is_47 sight body c target in
          ((is_some r.1 ≡ true) × (r.0 ≡ c))
          ⊎ (IsInReach c target × InOrder c (Action.swing main_hand) (attack_on target) r)
    unfolding attack_entity swing_at
    attack_entity-IsInReach c target =
        let look : Containers Item → Others → Option (Position F64 × Body F64) = λ menus others.
          elim (sight others target) [ none ↦ none | some entity ↦ some (entity, body others) ] in
        elim (Option-cases (seen {X = Position F64 × Body F64} c look)) [
          | inl unseen ↦ rw (attack_entity, unseen) (inl (refl, refl))
          | inr ((entity, player), sighted) ↦ elim (Bool-cases player.placed) [
            | inr nowhere ↦ rw (attack_entity, sighted, nowhere) (inl (refl, refl))
            | inl placed ↦
                elim (Bool-cases (
                  m.exceeds (distance m entity player.position)
                    (reach_of m is_47 player.game_mode))) [
                      | inl far ↦ rw (attack_entity, sighted, placed, far) (inl (refl, refl))
                      | inr near ↦
                          rw (attack_entity, sighted, placed, near)
                            (inr (
                              record {
                                entity = entity;
                                player = player;
                                sighted = sighted;
                                placed = placed;
                                near = near;
                              },
                              do_then-InOrder c (Action.swing main_hand) (attack_on target),
                            ))
                    ]
          ]
        ]

  -- What a dig comes to: `d` is the client once the start is written, and `meanwhile d` after the wait.
  pub data Dug (c : Client P E Others Err Packet Item) (block : BlockPos) (face : Face)
      (breaking : ℤ) (waited : Waited Err)
      (meanwhile : Client P E Others Err Packet Item → Client P E Others Err Packet Item)
      (r : Client P E Others Err Packet Item × Option (ClientError Err)) : Type 0 where
    undug : is_some r.1 ≡ true → r.0 ≡ c → Dug c block face breaking waited meanwhile r
    at_once :
        (d : Client P E Others Err Packet Item)
        → IsWritten c d (Action.dig block face DigStage.start)
        → is_positive breaking ≡ false
        → Acted d (Action.dig block face DigStage.finish) r
        → Dug c block face breaking waited meanwhile r
    waited_out :
        (d : Client P E Others Err Packet Item)
        → IsWritten c d (Action.dig block face DigStage.start)
        → waited ≡ elapsed
        → Acted (meanwhile d) (Action.dig block face DigStage.finish) r
        → Dug c block face breaking waited meanwhile r
    abandoned :
        (d : Client P E Others Err Packet Item)
        → IsWritten c d (Action.dig block face DigStage.start)
        → (cause : Err) → waited ≡ cancelled cause
        → is_some r.1 ≡ true
        → (r.0 ≡ meanwhile d) ⊎ IsWritten (meanwhile d) r.0 (Action.dig block face DigStage.cancel)
        → Dug c block face breaking waited meanwhile r
    closed_meanwhile :
        (d : Client P E Others Err Packet Item)
        → IsWritten c d (Action.dig block face DigStage.start)
        → waited ≡ client_done
        → is_some r.1 ≡ true
        → r.0 ≡ meanwhile d
        → Dug c block face breaking waited meanwhile r

  cancel_dig_lem :
      (c : Client P E Others Err Packet Item) (block : BlockPos) (face : Face) (cause : Err)
      → let r = cancel_dig event wire is_dead c block face cause in
        (is_some r.1 ≡ true) × ((r.0 ≡ c) ⊎ IsWritten c r.0 (Action.dig block face DigStage.cancel))
  unfolding cancel_dig
  cancel_dig_lem c block face cause =
      let r = act event wire is_dead c (Action.dig block face DigStage.cancel) in
      elim (act-Acted c (Action.dig block face DigStage.cancel)) [
        | refused failed same ↦ elim (Option-cases r.1) [
          | inl fine ↦ absurd (ground (arith, failed, fine))
          | inr (e, is_error) ↦ rw (cancel_dig, is_error) (refl, inl same)
        ]
        | wrote fine written ↦ rw (cancel_dig, fine) (refl, inr written)
      ]

  after_wait-Dug :
      (c d : Client P E Others Err Packet Item) (block : BlockPos) (face : Face) (breaking : ℤ)
      (waited : Waited Err)
      (meanwhile : Client P E Others Err Packet Item → Client P E Others Err Packet Item)
      → IsWritten c d (Action.dig block face DigStage.start)
      → Dug c block face breaking waited meanwhile
          (after_wait event wire is_dead (meanwhile d) block face waited)
  unfolding after_wait
  after_wait-Dug c d block face breaking elapsed meanwhile begun =
      waited_out d begun refl (act-Acted (meanwhile d) (Action.dig block face DigStage.finish))
  after_wait-Dug c d block face breaking (cancelled cause) meanwhile begun =
      let (failed, left) = cancel_dig_lem (meanwhile d) block face cause in
      abandoned d begun cause refl failed left
  after_wait-Dug c d block face breaking client_done meanwhile begun =
      closed_meanwhile d begun refl refl refl

  -- A dig, whatever other goroutines do to the client meanwhile: it fails with the client as it was; or its
  -- start is written first, and then a finish is sent only where the block breaks at once or the wait
  -- elapsed, a cancel only where the context was cancelled, with an error, and nothing where the client
  -- was closed, with an error.
  pub dig_block-Dug :
      (c : Client P E Others Err Packet Item) (block : BlockPos) (face : Face) (breaking : ℤ)
      (waited : Waited Err)
      (meanwhile : Client P E Others Err Packet Item → Client P E Others Err Packet Item)
      → Dug c block face breaking waited meanwhile
          (dig_block event wire is_dead c block face breaking waited meanwhile)
  unfolding dig_block
  dig_block-Dug c block face breaking waited meanwhile =
      let first = Action.dig block face DigStage.start in
      let r = act event wire is_dead c first in
      elim (act-Acted c first) [
        | refused failed same ↦ elim (Option-cases r.1) [
          | inl fine ↦ absurd (ground (arith, failed, fine))
          | inr (e, is_error) ↦ rw (dig_block, do_then, is_error) (undug failed same)
        ]
        | wrote fine begun ↦ elim (Bool-cases (is_positive breaking)) [
          | inl long ↦
              rw (dig_block, do_then, fine, long)
                (after_wait-Dug c r.0 block face breaking waited meanwhile begun)
          | inr short ↦
              rw (dig_block, do_then, fine, short)
                (at_once r.0 begun short (act-Acted r.0 (Action.dig block face DigStage.finish)))
        ]
      ]
