-- ===== src/Client/Windows.antt =====
-- client/window.go: clicking slots and closing windows. `Menus` is what the profile says: whether it is
-- protocol 47, and its adapter as `Stacks` and as `Crafter`, where it is one. `lift` makes an event of a
-- container event, and `refusal` an error of a click's.
pub mod Plans
pub mod Rollback
pub mod Overflow
use headless_minecraft.Base.{
  ℕ, ◌+◌, ◌-◌, ◌%◌, ◌^◌, Bool, true, false, not, ◌&&◌, ◌||◌, Option, none, some, List, [], ◌∷◌,
  ◌++◌, map, ℤ, pos, negsuc, String, ltb, is_some, if◌then◌else◌, ◌==◌, int_key,
}
use headless_minecraft.Base.Map
use headless_minecraft.Base.Map.{Map}
use headless_minecraft.Event.{Event, Stamped, Collector, new_collector, stamp}
use headless_minecraft.Event.Containers.{ContainerEvent}
use headless_minecraft.Version.Actions.{
  Action, click_slot, close_window, ClickMode, pickup, ClickSlot,
}
use headless_minecraft.World.Core.{World, WorldError, Mutate}
use headless_minecraft.World.Containers.{
  Container, Containers, SlotSnapshot, Pending, Events, closed, cursor_changed,
}
use headless_minecraft.World.Containers.Clicks.{ClickError, snapshot, click, reject}
use headless_minecraft.Client.Actions.{
  Client, ClientError, unknown_container, unpredictable, not_recorded, Wire, seen, publish_to_all,
  amend_world, do_action,
}

-- `CraftingLayout` of version/craft.go.
pub record CraftingLayout : Type 0 where
  pub result : ℤ
  pub grid : List ℤ

-- `Crafter` of version/craft.go: a menu type and window's grid, and a craft's result and remaining grid.
pub record Crafter (Item : Type 0) : Type 0 where
  pub crafting_layout : String → ℤ → Option CraftingLayout
  pub predict_craft : List (Option Item) → Option (Option Item × List (Option Item))

pub record Menus (Item : Type 0) : Type 0 where
  -- `profile.ID == protocol47`
  pub is_47 : Bool
  pub stack_empty : Option (Option Item → Bool)
  pub crafter : Option (Crafter Item)

-- `clickPlan`
pub record Plan (Item : Type 0) : Type 0 where
  pub claim : Option Item
  pub predicted : List (SlotSnapshot Item)
  pub cursor : SlotSnapshot Item
  pub snapshot_slots : List ℤ
  pub exact : Bool

-- `int16(c.clicks.Add(1))` on an int32.
abbrev pub next_clicks : ℕ → ℕ
next_clicks clicks = (clicks + 1) % 2 ^ 32

abbrev pub sequence_of : ℕ → ℤ
sequence_of clicks =
    let low = clicks % 2 ^ 16 in if ltb low (2 ^ 15) then pos low else negsuc (2 ^ 16 - 1 - low)

abbrev pub is_left_pickup : ClickMode → ℤ → Bool
is_left_pickup mode button = elim mode [ pickup ↦ button == pos 0 | _ ↦ false ]

module _ {Item : Type 0} where
  -- `view.Slots[slot]`: nil for a missing slot.
  abbrev pub claim_of : Container Item → ℤ → Option Item
  claim_of view slot = elim (Map.lookup slot view.slots) [ none ↦ none | some item ↦ item ]

  -- The menu that is open under an id, with the store.
  abbrev pub find_open : ℤ → Containers Item → Option (Container Item × Containers Item)
  find_open window s = elim (Map.lookup window s.open_menus) [
    | none ↦ none
    | some view ↦ some (view, s)
  ]

  abbrev pub nowhere : SlotSnapshot Item
  nowhere = record { slot = pos 0; item = none; held = false; known = false }

  abbrev pub holding : Option Item → SlotSnapshot Item
  holding item = record { slot = pos 0; item = item; held = true; known = false }

  abbrev pub inexact : Option Item → ℤ → Plan Item
  inexact claim slot = record {
    claim = claim;
    predicted = [];
    cursor = nowhere;
    snapshot_slots = slot ∷ [];
    exact = false;
  }

  -- The predictions of the cells that a craft leaves; a craft leaves as many as the grid has.
  unfoldable pub predict_cells : List ℤ → List (Option Item) → List (SlotSnapshot Item)
  predict_cells (slot ∷ grid) (cell ∷ cells) =
      record { slot = slot; item = cell; held = is_some cell; known = true }
      ∷ predict_cells grid cells
  predict_cells _ _ = []

  -- What the result slot holds once the craft is taken.
  abbrev pub predict_next : Option (Option Item × List (Option Item)) → ℤ → SlotSnapshot Item
  predict_next none slot = record { slot = slot; item = none; held = false; known = true }
  predict_next (some (next, left)) slot = record {
    slot = slot;
    item = next;
    held = true;
    known = true;
  }

  unfoldable pub plan_result_click : Crafter Item → CraftingLayout → Container Item → Plan Item
  plan_result_click crafter layout view =
      elim (crafter.predict_craft (map (claim_of view) layout.grid)) [
        | none ↦ record {
          claim = none;
          predicted = [];
          cursor = nowhere;
          snapshot_slots = layout.result ∷ layout.grid;
          exact = true;
        }
        | some (result, remaining) ↦ record {
          claim = result;
          predicted =
              predict_cells layout.grid remaining
              ++ predict_next (crafter.predict_craft remaining) layout.result ∷ [];
          cursor = holding result;
          snapshot_slots = layout.result ∷ layout.grid;
          exact = true;
        }
      ]

  -- The layout of a crafting menu whose result slot is clicked with an empty cursor.
  abbrev pub result_of :
      Option (Crafter Item) → Bool → Container Item → ℤ → ℤ → Option (Crafter Item × CraftingLayout)
  result_of none cursor_empty view window slot = none
  result_of (some crafter) cursor_empty view window slot =
      elim (crafter.crafting_layout view.menu_type window) [
        | none ↦ none
        | some layout ↦
            if cursor_empty && layout.result == slot then some (crafter, layout) else none
      ]

  -- A left click with a plain cursor: it takes the stack up, puts it down, or does nothing.
  abbrev pub plan_pickup : Bool → Bool → Option Item → Option Item → ℤ → Plan Item
  plan_pickup cursor_empty slot_empty item cursor slot =
      if cursor_empty && not slot_empty
      then record {
        claim = item;
        predicted = record { slot = slot; item = none; held = false; known = true } ∷ [];
        cursor = holding item;
        snapshot_slots = slot ∷ [];
        exact = true;
      }
      else if not cursor_empty && slot_empty
      then record {
        claim = item;
        predicted = record { slot = slot; item = cursor; held = true; known = true } ∷ [];
        cursor = nowhere;
        snapshot_slots = slot ∷ [];
        exact = true;
      }
      else if cursor_empty && slot_empty
      then record (inexact item slot) { exact = true }
      else inexact item slot

  unfoldable pub plan_click :
      Menus Item → Container Item → Containers Item → ℤ → ℤ → ℤ → ClickMode → Plan Item
  plan_click menus view s window slot button mode =
      let claim = claim_of view slot in
      if not (is_left_pickup mode button) then inexact claim slot else elim menus.stack_empty [
        | none ↦ inexact claim slot
        | some stack_empty ↦
            let cursor_empty = not s.cursor_held || stack_empty s.cursor in
            elim (result_of menus.crafter cursor_empty view window slot) [
              | some (crafter, layout) ↦ plan_result_click crafter layout view
              | none ↦ plan_pickup cursor_empty (stack_empty claim) claim s.cursor slot
            ]
      ]

module _ {E Err Item : Type 0} (lift : ContainerEvent → E) (refusal : ClickError → Err)
    (range : Map ℤ (Option Item) → List (ℤ × Option Item)) where
  -- A container event that is collected, as one of the collector's events.
  abbrev pub lifted : (ℕ → Stamped ContainerEvent) → ℕ → Stamped E
  lifted f revision = stamp (lift (f revision).event) (f revision).revision

  -- The events of a store's operation, after those that the collector has.
  abbrev pub collect : Collector E → Events → Collector E
  collect c d = record c { pending = c.pending ++ map lifted d.pending }

  -- The mutation that records a click.
  unfoldable pub record_click : ℤ → ℤ → Plan Item → Mutate E (Containers Item) Err
  record_click sequence window plan s c =
      let (t, d) =
        click range s new_collector (snapshot s sequence window plan.snapshot_slots)
          plan.predicted in
      let (u, e) =
        (if plan.exact then cursor_changed t d plan.cursor.item plan.cursor.held else (t, d)) in
      (u, collect c e, none)

  -- The mutation that takes a click back.
  unfoldable pub take_back : ℤ → Mutate E (Containers Item) Err
  take_back sequence s c =
      let (t, d, failure) = reject s new_collector sequence in
      (t, collect c d, elim failure [ none ↦ none | some e ↦ some (refusal e) ])

  -- The mutation of a window that the client closed.
  unfoldable pub forget_window : ℤ → Mutate E (Containers Item) Err
  forget_window window s c =
      let (t, d) = closed s new_collector window in
      let (u, e) = cursor_changed t d none false in (u, collect c e, none)

module _ {F32 F64 P E Others Err Packet Item : Type 0} (event : Event E)
    (wire : Wire F32 F64 Packet E Err Item) (is_dead : Others → Bool) (menus : Menus Item)
    (lift : ContainerEvent → E) (refusal : ClickError → Err)
    (range : Map ℤ (Option Item) → List (ℤ × Option Item)) where
  -- What `Click` does where the send failed: an error of the rejection is dropped.
  unfoldable pub roll_back :
      Client P E Others Err Packet Item → ℤ → Client P E Others Err Packet Item
  roll_back c sequence = elim (amend_world c (take_back lift refusal range sequence)) [
    | none ↦ c
    | some (next, es, none) ↦ publish_to_all event next es
    | some (next, es, some e) ↦ next
  ]

  abbrev pub send_click :
      Client P E Others Err Packet Item
      → ℤ
      → ClickSlot Item
      → Client P E Others Err Packet Item × Option (ClientError Err)
  send_click c sequence clicked =
      let (next, failure) = do_action event wire is_dead c (some (click_slot clicked)) in
      elim failure [ none ↦ (next, none) | some e ↦ (roll_back next sequence, some e) ]

  -- `Click` once the plan is made; `none` is the panic of a client with no world.
  unfoldable pub perform_click :
      Client P E Others Err Packet Item
      → Plan Item
      → ℤ
      → ℤ
      → ℤ
      → ClickMode
      → Option (Client P E Others Err Packet Item × Option (ClientError Err))
  perform_click c plan window slot button mode =
      let counted = record c { clicks = next_clicks c.clicks } in
      let sequence = sequence_of (next_clicks c.clicks) in
      elim (amend_world counted (record_click lift refusal range sequence window plan)) [
        | none ↦ none
        | some (next, es, some e) ↦ some (next, some (not_recorded e))
        | some (next, es, none) ↦ some (
            send_click (publish_to_all event next es) sequence (record {
              window = window;
              slot = slot;
              button = button;
              mode = mode;
              sequence = sequence;
              claim = plan.claim;
            }))
      ]

  -- `Click`
  unfoldable pub click_window :
      Client P E Others Err Packet Item
      → ℤ
      → ℤ
      → ℤ
      → ClickMode
      → Option (Client P E Others Err Packet Item × Option (ClientError Err))
  click_window c window slot button mode = elim (seen c (λ s others. find_open window s)) [
    | none ↦ some (c, some (unknown_container window))
    | some (view, s) ↦
        let plan = plan_click menus view s window slot button mode in
        if not plan.exact && menus.is_47
        then some (c, some (unpredictable mode slot))
        else perform_click c plan window slot button mode
  ]

  -- `CloseWindow`; `none` is the panic of a client with no world.
  unfoldable pub close_open_window :
      Client P E Others Err Packet Item
      → ℤ
      → Option (Client P E Others Err Packet Item × Option (ClientError Err))
  close_open_window c window =
      let (sent, failure) = do_action event wire is_dead c (some (close_window window)) in
      elim failure [
        | some e ↦ some (sent, some e)
        | none ↦ elim (amend_world sent (forget_window lift refusal range window)) [
          | none ↦ none
          | some (next, es, some e) ↦ some (next, some (not_recorded e))
          | some (next, es, none) ↦ some (publish_to_all event next es, none)
        ]
      ]
