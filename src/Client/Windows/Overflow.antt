-- ===== src/Client/Windows/Overflow.antt =====
-- client/window.go: a click whose packet is not sent while the store's list of pending clicks is full.
use headless_minecraft.Base.{
  ◌≡◌, refl, arith, Bool, true, Option, none, some, List, [], ℤ, is_some, length, int_key, leb,
  Option-cases, inl, inr,
}
use headless_minecraft.Base.Map.{Map}
use headless_minecraft.Event.{Event, new_collector, events}
use headless_minecraft.Event.Containers.{ContainerEvent}
use headless_minecraft.Version.Actions.{ClickMode, ClickSlot}
use headless_minecraft.World.Core.{World, Mutate, next_revision, amend, mutation_failed}
use headless_minecraft.World.Containers.{Containers, max_pending, if_held, cursor_changed}
use headless_minecraft.World.Containers.Clicks.{ClickError, index_of, reject, reject_at, click}
use headless_minecraft.Client.Actions.{Client, ClientError, Wire, amend_world, publish_to_all}
use headless_minecraft.Client.Windows.{
  Menus, Plan, record_click, take_back, roll_back, perform_click, next_clicks, sequence_of,
}
use headless_minecraft.Client.Windows.Rollback.{amend_world_lem, send_click_refused}

-- What the store's cursor is after a plan's click.
pub record IsMoved {Item : Type 0} (s t : Containers Item) (plan : Plan Item) : Type 0 where
  pub cursor : t.cursor ≡ if_held plan.cursor.held plan.cursor.item
  pub cursor_held : t.cursor_held ≡ plan.cursor.held
  pub menus : t.open_menus ≡ s.open_menus

module _ {E Err Item : Type 0} (lift : ContainerEvent → E) (refusal : ClickError → Err)
    (range : Map ℤ (Option Item) → List (ℤ × Option Item)) where
  -- The store that a full list of pending clicks leaves, also after the rejection, which fails.
  reject-full :
      (s : Containers Item) (sequence window : ℤ) (plan : Plan Item)
      → leb max_pending (length s.pending) ≡ true
      → index_of sequence s.pending ≡ none
      → plan.exact ≡ true
      → let u = (record_click lift refusal range sequence window plan s new_collector).0 in
        let v = reject u new_collector sequence in (is_some v.2 ≡ true) × IsMoved s v.0 plan
  unfolding record_click click reject reject_at cursor_changed
  reject-full s sequence window plan full unknown exact =
      rw (record_click, click, full, exact, unknown)
        (refl, record { cursor = refl; cursor_held = refl; menus = refl })

module _ {P E Others Err Packet Item : Type 0} where
  -- A mutation that fails: the world keeps what it wrote.
  amend_world_fails :
      (c : Client P E Others Err Packet Item) (w : World P E (Containers Item) Others Err)
      (mutate : Mutate E (Containers Item) Err) (e : Err)
      → c.world ≡ some w
      → w.poisoned ≡ none
      → (mutate w.menus new_collector).2 ≡ some e
      → amend_world c mutate
        ≡ some (
          record c { world = some (record w { menus = (mutate w.menus new_collector).0 }) },
          [],
          some (mutation_failed e),
        )
  unfolding amend_world amend
  amend_world_fails c w mutate e world sound failed =
      simp (amend_world, world, amend, sound, failed) refl

  -- What is left of a click that was not sent and could not be taken back: the error of the send, and a
  -- world whose cursor is as the plan predicts.
  pub record IsKept (s : Containers Item) (plan : Plan Item)
      (r : Option (Client P E Others Err Packet Item × Option (ClientError Err))) : Type 0 where
    pub next : Client P E Others Err Packet Item
    pub e : ClientError Err
    pub outcome : r ≡ some (next, some e)
    pub w : World P E (Containers Item) Others Err
    pub world : next.world ≡ some w
    pub moved : IsMoved s w.menus plan

module _ {F32 F64 P E Others Err Packet Item : Type 0} (event : Event E)
    (wire : Wire F32 F64 Packet E Err Item) (is_dead : Others → Bool) (menus : Menus Item)
    (lift : ContainerEvent → E) (refusal : ClickError → Err)
    (range : Map ℤ (Option Item) → List (ℤ × Option Item)) where
  roll_back_failed :
      (c : Client P E Others Err Packet Item) (w : World P E (Containers Item) Others Err)
      (sequence : ℤ)
      → c.world ≡ some w
      → w.poisoned ≡ none
      → is_some (reject w.menus new_collector sequence).2 ≡ true
      → (roll_back event wire is_dead menus lift refusal range c sequence).world
        ≡ some (record w { menus = (reject w.menus new_collector sequence).0 })
  unfolding roll_back take_back
  roll_back_failed c w sequence world sound failed =
      elim (Option-cases (reject w.menus new_collector sequence).2) [
        | inl fine ↦ absurd (ground (arith, failed, fine))
        | inr (e, is_error) ↦
            simp
              (
                roll_back,
                amend_world_fails c w (take_back lift refusal range sequence) (refusal e) world
                    sound (rw (take_back, is_error) refl),
              )
              refl
      ]

  -- An exact click made while 256 clicks are pending, under a sequence that none of them has, with a writer
  -- that refuses every packet: the store does not keep the click, so that it cannot be taken back, and the
  -- cursor stays as the plan predicts though nothing was sent; the menus are what they were.
  pub perform_click-IsKept :
      (c : Client P E Others Err Packet Item) (w : World P E (Containers Item) Others Err)
      (plan : Plan Item) (window slot button : ℤ) (mode : ClickMode)
      → c.world ≡ some w
      → w.poisoned ≡ none
      → leb max_pending (length w.menus.pending) ≡ true
      → index_of (sequence_of (next_clicks c.clicks)) w.menus.pending ≡ none
      → plan.exact ≡ true
      → ((p : Packet) → is_some (wire.write p) ≡ true)
      → IsKept w.menus plan
          (perform_click event wire is_dead menus lift refusal range c plan window slot button mode)
  unfolding perform_click record_click
  perform_click-IsKept c w plan window slot button mode world sound full unknown exact broken =
      let sequence = sequence_of (next_clicks c.clicks) in
      let counted = record c { clicks = next_clicks c.clicks } in
      let mutate = record_click lift refusal range sequence window plan in
      let recorded = amend_world_lem counted w mutate world sound refl in
      let kept = reject-full lift refusal range w.menus sequence window plan full unknown exact in
      let w2 : World P E (Containers Item) Others Err = record w {
        menus = (mutate w.menus new_collector).0;
        revision = next_revision w.revision;
      } in
      let es = events (mutate w.menus new_collector).1 (next_revision w.revision) in
      let c2 = publish_to_all event (record counted { world = some w2 }) es in
      let clicked : ClickSlot Item = record {
        window = window;
        slot = slot;
        button = button;
        mode = mode;
        sequence = sequence;
        claim = plan.claim;
      } in
      let (e, refused) =
        send_click_refused event wire is_dead menus lift refusal range c2 sequence clicked broken in
      rw (perform_click, recorded, refused)
        (record {
          next = roll_back event wire is_dead menus lift refusal range c2 sequence;
          e = e;
          outcome = refl;
          w = record w2 { menus = (reject w2.menus new_collector sequence).0 };
          world = roll_back_failed c2 w2 sequence refl sound kept.0;
          moved = kept.1;
        })
