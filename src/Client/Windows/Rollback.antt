-- ===== src/Client/Windows/Rollback.antt =====
-- client/window.go: a click whose packet is not sent.
use headless_minecraft.Base.{
  ◌<◌, ◌≡◌, refl, arith, Bool, true, not, ◌&&◌, Option, none, some, List, ℤ, is_some, Bool-cases,
  Option-cases, inl, inr, if◌then◌else◌, length, All, int_key,
}
use headless_minecraft.Base.Map
use headless_minecraft.Base.Map.{Map}
use headless_minecraft.Event.{Event, new_collector, events}
use headless_minecraft.Event.Containers.{ContainerEvent}
use headless_minecraft.Version.Actions.{Action, ClickMode, ClickSlot, click_slot}
use headless_minecraft.World.Core.{World, Mutate, amend, next_revision, snapshot}
use headless_minecraft.World.Containers.{Container, Containers, max_pending, if_held}
use headless_minecraft.World.Containers.Clicks.{ClickError, index_of, reject}
use headless_minecraft.World.Containers.Rollback.{
  IsRestored, reject-click_later, reject-cursor_changed,
}
use headless_minecraft.Client.Actions.{
  Client, ClientError, Wire, seen, amend_world, do_action, publish_to_all, unpredictable,
}
use headless_minecraft.Client.Actions.Sending.{do_action-IsSent}
use headless_minecraft.Client.Windows.{
  Menus, Plan, find_open, plan_click, record_click, take_back, roll_back, send_click, perform_click,
  click_window, next_clicks, sequence_of,
}
use headless_minecraft.Client.Windows.Plans.{IsCovered, plan_click-IsCovered}

module _ {P E Others Err Packet Item : Type 0} where
  -- A mutation that succeeds on the menus of a world that is not poisoned.
  pub amend_world_lem :
      (c : Client P E Others Err Packet Item) (w : World P E (Containers Item) Others Err)
      (mutate : Mutate E (Containers Item) Err)
      → c.world ≡ some w
      → w.poisoned ≡ none
      → (mutate w.menus new_collector).2 ≡ none
      → let m = mutate w.menus new_collector in
        amend_world c mutate
        ≡ some (
          record c { world = some (record w { menus = m.0; revision = next_revision w.revision }) },
          events m.1 (next_revision w.revision),
          none,
        )
  unfolding amend_world amend
  amend_world_lem c w mutate world sound done = simp (amend_world, world, amend, sound, done) refl

  seen_lem :
      {X : Type 0} (c : Client P E Others Err Packet Item)
      (w : World P E (Containers Item) Others Err) (look : Containers Item → Others → Option X)
      → c.world ≡ some w
      → w.poisoned ≡ none
      → seen c look ≡ look w.menus w.others
  unfolding seen snapshot
  seen_lem c w look world sound = rw (seen, world, snapshot, sound) refl

  -- What a click leaves that was not sent: an error, and a world whose menus are as before it.
  pub record IsUndone (s : Containers Item) (window : ℤ)
      (r : Option (Client P E Others Err Packet Item × Option (ClientError Err))) : Type 0 where
    pub next : Client P E Others Err Packet Item
    pub e : ClientError Err
    pub outcome : r ≡ some (next, some e)
    pub w : World P E (Containers Item) Others Err
    pub world : next.world ≡ some w
    pub restored : IsRestored s w.menus window

module _ {E Err Item : Type 0} (lift : ContainerEvent → E) (refusal : ClickError → Err)
    (range : Map ℤ (Option Item) → List (ℤ × Option Item))
    (visits : (Q : ℤ × Option Item → Type 0) (m : Map ℤ (Option Item))
      → All Q m
      → All Q (range m)) where
  -- A click that was recorded by its plan, then taken back.
  reject-record_click :
      (s : Containers Item) (sequence window : ℤ) (menu : Container Item) (plan : Plan Item)
      → Map.lookup window s.open_menus ≡ some menu
      → length s.pending < max_pending
      → index_of sequence s.pending ≡ none
      → if_held s.cursor_held s.cursor ≡ s.cursor
      → IsCovered plan.predicted plan.snapshot_slots
      → let u = (record_click lift refusal range sequence window plan s new_collector).0 in
        let v = reject u new_collector sequence in (v.2 ≡ none) × IsRestored s v.0 window
  unfolding record_click
  reject-record_click s sequence window menu plan found room fresh held covered =
      elim (Bool-cases plan.exact) [
        | inl exact ↦
            rw (record_click, exact)
              (reject-cursor_changed range visits s new_collector sequence window menu
                plan.snapshot_slots plan.predicted plan.cursor.item plan.cursor.held new_collector
                found room fresh held covered)
        | inr rough ↦
            rw (record_click, rough)
              (reject-click_later range visits s new_collector sequence window menu
                plan.snapshot_slots plan.predicted new_collector found room fresh held covered)
      ]

module _ {F32 F64 P E Others Err Packet Item : Type 0} (event : Event E)
    (wire : Wire F32 F64 Packet E Err Item) (is_dead : Others → Bool) where
  do_action_refused :
      (c : Client P E Others Err Packet Item) (action : Action F32 F64 Item)
      → ((p : Packet) → is_some (wire.write p) ≡ true)
      → (e : ClientError Err) × (do_action event wire is_dead c (some action) ≡ (c, some e))
  do_action_refused c action broken = elim (do_action-IsSent event wire is_dead c action) [
    | inl (failed, same) ↦ elim (Option-cases (do_action event wire is_dead c (some action)).1) [
      | inl fine ↦ absurd (ground (arith, failed, fine))
      | inr (e, is_error) ↦ (e, ground (arith, same, is_error))
    ]
    | inr (succeeded, sent) ↦ absurd (ground (arith, broken sent.p, sent.accepted))
  ]

module _ {F32 F64 P E Others Err Packet Item : Type 0} (event : Event E)
    (wire : Wire F32 F64 Packet E Err Item) (is_dead : Others → Bool) (menus : Menus Item)
    (lift : ContainerEvent → E) (refusal : ClickError → Err)
    (range : Map ℤ (Option Item) → List (ℤ × Option Item)) where
  roll_back-world :
      (c : Client P E Others Err Packet Item) (w : World P E (Containers Item) Others Err)
      (sequence : ℤ)
      → c.world ≡ some w
      → w.poisoned ≡ none
      → (reject w.menus new_collector sequence).2 ≡ none
      → (roll_back event wire is_dead menus lift refusal range c sequence).world
        ≡ some (record w {
          menus = (reject w.menus new_collector sequence).0;
          revision = next_revision w.revision;
        })
  unfolding roll_back take_back
  roll_back-world c w sequence world sound done =
      simp
        (
          roll_back,
          amend_world_lem c w (take_back lift refusal range sequence) world sound
              (rw (take_back, done) refl),
        )
        refl

  -- A click on a menu that is open in a sound world.
  click_window-found :
      (c : Client P E Others Err Packet Item) (w : World P E (Containers Item) Others Err)
      (menu : Container Item) (window slot button : ℤ) (mode : ClickMode)
      → c.world ≡ some w
      → w.poisoned ≡ none
      → Map.lookup window w.menus.open_menus ≡ some menu
      → let plan = plan_click menus menu w.menus window slot button mode in
        click_window event wire is_dead menus lift refusal range c window slot button mode ≡ (
          if not plan.exact && menus.is_47
          then some (c, some (unpredictable mode slot))
          else perform_click event wire is_dead menus lift refusal range c plan window slot button
              mode)
  unfolding click_window
  click_window-found c w menu window slot button mode world sound found =
      rw (click_window, seen_lem c w (λ s others. find_open window s) world sound, find_open, found)
        refl

  pub send_click_refused :
      (c : Client P E Others Err Packet Item) (sequence : ℤ) (clicked : ClickSlot Item)
      → ((p : Packet) → is_some (wire.write p) ≡ true)
      → (e : ClientError Err) × (send_click event wire is_dead menus lift refusal range c sequence
            clicked
          ≡ (roll_back event wire is_dead menus lift refusal range c sequence, some e))
  send_click_refused c sequence clicked broken =
      let (e, refused) = do_action_refused event wire is_dead c (click_slot clicked) broken in
      (e, simp (send_click, refused) refl)

  module _
      (visits : (Q : ℤ × Option Item → Type 0) (m : Map ℤ (Option Item))
        → All Q m
        → All Q (range m))
      (broken : (p : Packet) → is_some (wire.write p) ≡ true) where
    perform_click-IsUndone :
        (c : Client P E Others Err Packet Item) (w : World P E (Containers Item) Others Err)
        (menu : Container Item) (plan : Plan Item) (window slot button : ℤ) (mode : ClickMode)
        → c.world ≡ some w
        → w.poisoned ≡ none
        → Map.lookup window w.menus.open_menus ≡ some menu
        → length w.menus.pending < max_pending
        → index_of (sequence_of (next_clicks c.clicks)) w.menus.pending ≡ none
        → if_held w.menus.cursor_held w.menus.cursor ≡ w.menus.cursor
        → IsCovered plan.predicted plan.snapshot_slots
        → IsUndone w.menus window (
            perform_click event wire is_dead menus lift refusal range c plan window slot button
              mode)
    unfolding perform_click record_click
    perform_click-IsUndone c w menu plan window slot button mode world sound found room fresh held
          covered =
        let sequence = sequence_of (next_clicks c.clicks) in
        let counted = record c { clicks = next_clicks c.clicks } in
        let mutate = record_click lift refusal range sequence window plan in
        let recorded = amend_world_lem counted w mutate world sound refl in
        let undone =
          reject-record_click lift refusal range visits w.menus sequence window menu plan found room
            fresh held covered in
        let w2 : World P E (Containers Item) Others Err = record w {
          menus = (mutate w.menus new_collector).0;
          revision = next_revision w.revision;
        } in
        let es = events (mutate w.menus new_collector).1 (next_revision w.revision) in
        let c2 = publish_to_all event (record counted { world = some w2 }) es in
        let clicked : ClickSlot Item = record {
          window = window;
          slot = slot;
          button = button;
          mode = mode;
          sequence = sequence;
          claim = plan.claim;
        } in
        let (e, refused) = send_click_refused c2 sequence clicked broken in
        rw (perform_click, recorded, refused)
          (record {
            next = roll_back event wire is_dead menus lift refusal range c2 sequence;
            e = e;
            outcome = refl;
            w = record w2 {
              menus = (reject w2.menus new_collector sequence).0;
              revision = next_revision w2.revision;
            };
            world = roll_back-world c2 w2 sequence refl sound undone.0;
            restored = undone.1;
          })

    -- A click on an open menu of a world that is not poisoned, made while fewer than 256 clicks are pending
    -- and none of them under its sequence, while a cursor that holds nothing has no item, with a writer that
    -- refuses every packet: whatever the protocol, the adapter, the click and the order in which a map's
    -- entries are visited, the call returns an error, and every slot of the menu, every other menu, the
    -- pending clicks and the cursor are what they were before the call.
    pub click_window-IsUndone :
        (c : Client P E Others Err Packet Item) (w : World P E (Containers Item) Others Err)
        (menu : Container Item) (window slot button : ℤ) (mode : ClickMode)
        → c.world ≡ some w
        → w.poisoned ≡ none
        → Map.lookup window w.menus.open_menus ≡ some menu
        → length w.menus.pending < max_pending
        → index_of (sequence_of (next_clicks c.clicks)) w.menus.pending ≡ none
        → if_held w.menus.cursor_held w.menus.cursor ≡ w.menus.cursor
        → IsUndone w.menus window
            (click_window event wire is_dead menus lift refusal range c window slot button mode)
    click_window-IsUndone c w menu window slot button mode world sound found room fresh held =
        let plan = plan_click menus menu w.menus window slot button mode in
        let covered = plan_click-IsCovered menus menu w.menus window slot button mode in
        let opened = click_window-found c w menu window slot button mode world sound found in
        elim (Bool-cases (not plan.exact && menus.is_47)) [
          | inl unsure ↦
              rw (opened, unsure)
                (record {
                  next = c;
                  e = unpredictable mode slot;
                  outcome = refl;
                  w = w;
                  world = world;
                  restored = record {
                    slots = λ j. refl;
                    others = λ v ne. refl;
                    pending = refl;
                    cursor = refl;
                    cursor_held = refl;
                  };
                })
          | inr sure ↦
              rw (opened, sure)
                (perform_click-IsUndone c w menu plan window slot button mode world sound found room
                  fresh held covered)
        ]
