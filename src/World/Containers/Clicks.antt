-- ===== src/World/Containers/Clicks.antt =====
-- world/containers_click.go: clicks that the client predicted and the server has not answered, with
-- what the slots and the cursor held before, so that a rejected click can be rolled back.
use headless_minecraft.Base.{
  ℕ, zero, suc, true, false, not, Option, none, some, List, [], ◌∷◌, ◌++◌, map, ℤ, pos, int_leb,
  int_key, leb, is_some, if◌then◌else◌, ◌==◌, keep, length, take, drop,
}
use headless_minecraft.Base.Map
use headless_minecraft.Base.Map.{Map}
use headless_minecraft.Base.Sort.{sort}
use headless_minecraft.Event.{emit}
use headless_minecraft.Event.Containers.{ContainerEvent}
use headless_minecraft.World.Containers.{
  Container, Containers, SlotSnapshot, Pending, Events, max_pending, if_held, put, slots_changed,
  cursor_changed,
}

pub data ClickError : Type 0 where
  -- ErrUnknownSequence, with the sequence
  unknown_sequence : ℤ → ClickError
  -- ErrOutOfOrder, with the sequence and the number of clicks before it
  out_of_order : ℤ → ℕ → ClickError

module _ {Item : Type 0} where
  -- An entry of the menu's slots is present (known) or missing; a present one may hold nil.
  abbrev pub read_entry : ℤ → Option (Option Item) → SlotSnapshot Item
  read_entry slot none = record { slot = slot; item = none; held = false; known = false }
  read_entry slot (some item) = record {
    slot = slot;
    item = item;
    held = is_some item;
    known = true;
  }

  abbrev pub read_slot : Option (Container Item) → ℤ → SlotSnapshot Item
  read_slot none slot = record { slot = slot; item = none; held = false; known = false }
  read_slot (some menu) slot = read_entry slot (Map.lookup slot menu.slots)

  unfoldable pub snapshot : Containers Item → ℤ → ℤ → List ℤ → Pending Item
  snapshot s sequence window slots = record {
    sequence = sequence;
    window = window;
    before = map (read_slot (Map.lookup window s.open_menus)) slots;
    cursor_before = s.cursor;
    cursor_held = s.cursor_held;
  }

  unfoldable pub predicted_items :
      Map ℤ (Option Item) → List (SlotSnapshot Item) → Map ℤ (Option Item)
  predicted_items items [] = items
  predicted_items items (p ∷ rest) =
      predicted_items (Map.insert p.slot (if_held p.held p.item) items) rest

  unfoldable pub apply_predicted :
      Containers Item → Events → ℤ → List (ℤ × Option Item) → Containers Item × Events
  unfolding slots_changed
  apply_predicted s c window [] = (s, c)
  apply_predicted s c window (e ∷ items) = slots_changed s c window (e ∷ items) (pos 0) false

  -- `range` is the order in which the runtime visits the map of predicted items.
  unfoldable pub click :
      (Map ℤ (Option Item) → List (ℤ × Option Item))
      → Containers Item
      → Events
      → Pending Item
      → List (SlotSnapshot Item)
      → Containers Item × Events
  unfolding apply_predicted predicted_items
  click range s c p predicted =
      if leb max_pending (length s.pending)
      then (record s { dropped_pending = suc s.dropped_pending }, c)
      else apply_predicted (record s { pending = s.pending ++ p ∷ [] }) c p.window
          (range (predicted_items [] predicted))

  -- `slices.IndexFunc` over the pending clicks.
  unfoldable pub index_of : ℤ → List (Pending Item) → Option ℕ
  index_of sequence [] = none
  index_of sequence (p ∷ ps) =
      let rest : Option ℕ = index_of sequence ps in
      if p.sequence == sequence then some 0 else elim rest [ none ↦ none | some i ↦ some (suc i) ]

  unfoldable pub confirm_at : Containers Item → ℤ → Option ℕ → Containers Item × Option ClickError
  confirm_at s sequence none = (s, some (unknown_sequence sequence))
  confirm_at s sequence (some zero) = (record s { pending = drop 1 s.pending }, none)
  confirm_at s sequence (some (suc at)) = (s, some (out_of_order sequence (suc at)))

  unfoldable pub confirm : Containers Item → ℤ → Containers Item × Option ClickError
  unfolding confirm_at index_of
  confirm s sequence = confirm_at s sequence (index_of sequence s.pending)

  abbrev pub restored_entry : Map ℤ (Option Item) → SlotSnapshot Item → Map ℤ (Option Item)
  restored_entry slots b =
      if not b.known
      then Map.delete b.slot slots
      else if b.held
      then Map.insert b.slot b.item slots
      else Map.insert b.slot none slots

  unfoldable pub restored_slots :
      Map ℤ (Option Item) → List (SlotSnapshot Item) → Map ℤ (Option Item)
  restored_slots slots [] = slots
  restored_slots slots (b ∷ rest) = restored_slots (restored_entry slots b) rest

  unfoldable pub restore_menu :
      Containers Item
      → Events
      → ℤ
      → Option (Container Item)
      → List (SlotSnapshot Item)
      → Containers Item × Events
  unfolding restored_slots emit
  restore_menu s c window (some menu) (b ∷ rest) = (
    put s window (record menu { slots = restored_slots menu.slots (b ∷ rest) }),
    emit c (
        ContainerEvent.slots_changed (record {
          container_id = window;
          slots = sort int_leb (map (λ x. x.slot) (b ∷ rest));
          properties = [];
          state_id = menu.state_id;
          state_known = menu.state_known;
          dropped = menu.dropped_slots;
        })),
  )
  restore_menu s c window _ _ = (s, c)

  unfoldable pub restore : Containers Item → Events → Pending Item → Containers Item × Events
  unfolding restore_menu cursor_changed
  restore s c p =
      let (t, d) = restore_menu s c p.window (Map.lookup p.window s.open_menus) p.before in
      cursor_changed t d p.cursor_before p.cursor_held

  -- The loop from the newest click down: the clicks after the first are restored before it.
  unfoldable pub restore_newest_first :
      Containers Item → Events → List (Pending Item) → Containers Item × Events
  restore_newest_first s c [] = (s, c)
  restore_newest_first s c (p ∷ newer) =
      let (t, d) = restore_newest_first s c newer in restore t d p

  unfoldable pub reject_at :
      Containers Item → Events → ℤ → Option ℕ → Containers Item × Events × Option ClickError
  unfolding restore_newest_first
  reject_at s c sequence none = (s, c, some (unknown_sequence sequence))
  reject_at s c sequence (some at) =
      let (t, d) = restore_newest_first s c (drop at s.pending) in
      (record t { pending = take at t.pending }, d, none)

  unfoldable pub reject :
      Containers Item → Events → ℤ → Containers Item × Events × Option ClickError
  unfolding reject_at index_of restore
  reject s c sequence = reject_at s c sequence (index_of sequence s.pending)

  pub pending_clicks : Containers Item → ℕ
  pending_clicks s = length s.pending

  unfoldable pub superseded : Containers Item → ℤ → Containers Item
  superseded s window = record s { pending = keep (λ p. not (p.window == window)) s.pending }
