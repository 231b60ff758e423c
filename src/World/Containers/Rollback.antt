-- ===== src/World/Containers/Rollback.antt =====
-- A rejected click gives back what the slots, the cursor and the other menus held before it.
pub mod Restore
pub mod Reopened
use Restore.{
  member, slot_of, slot_of_found, slot_of_menus, IsPredicted, apply_predicted-IsPredicted, Within,
  restore_menu_slot, restore_menu_others, pending-restore_menu, reject_newest, restored_slots_lem,
  drop-append_length,
}
use headless_minecraft.Base.{
  ℕ, zero, suc, ◌+◌, ◌≤◌, ◌<◌, ◌≡◌, refl, sym, ◌∙◌, ap, Bool, true, false, not, ◌||◌, Option, none,
  some, List, [], ◌∷◌, ◌++◌, map, ℤ, pos, leb, if◌then◌else◌, ◌==◌, ==_iff, ==_refl, length, arith,
  inl, inr, Option-cases, Bool-cases, int_key, take, drop, All, take-append_length,
}
use headless_minecraft.Base.Map
use headless_minecraft.Base.Map.{Map, lookup-insert, lookup-delete, lookup-insert_self}
use headless_minecraft.World.Containers.{
  Container, Containers, SlotSnapshot, Pending, Events, max_pending, if_held, put, track, slot_step,
  slot_loop, set_state, slots_changed, fill_tracked, cursor_changed,
}
use headless_minecraft.World.Containers.Clicks.{
  ClickError, read_entry, read_slot, snapshot, predicted_items, click, apply_predicted, index_of,
  restored_entry, restored_slots, restore_menu, restore, restore_newest_first, reject, reject_at,
}

module _ {Item : Type 0} where
  -- The store after the click was rolled back, seen from the store before the click.
  pub record IsRestored (s u : Containers Item) (window : ℤ) : Type 0 where
    pub slots : (j : ℤ) → slot_of u window j ≡ slot_of s window j
    pub others :
        (w : ℤ) → (window == w) ≡ false → Map.lookup w u.open_menus ≡ Map.lookup w s.open_menus
    pub pending : u.pending ≡ s.pending
    pub cursor : u.cursor ≡ s.cursor
    pub cursor_held : u.cursor_held ≡ s.cursor_held

  insert-Within :
      (ks : List ℤ) (slot : ℤ) (item : Option Item) (xs : List (ℤ × Option Item))
      → member slot ks ≡ true
      → Within ks xs
      → Within ks (Map.insert slot item xs)
  unfolding Map.insert
  insert-Within ks slot item [] m w = (m, tt)
  insert-Within ks slot item ((k, x) ∷ xs) m w = elim (Bool-cases (k == slot)) [
    | inl e ↦ rw e (m, w.1)
    | inr e ↦ rw e (w.0, insert-Within ks slot item xs m w.1)
  ]

  predicted_items-Within :
      (ks : List ℤ) (predicted : List (SlotSnapshot Item)) (items : List (ℤ × Option Item))
      → Within ks items
      → All (λ (b : SlotSnapshot Item). member b.slot ks ≡ true) predicted
      → Within ks (predicted_items items predicted)
  unfolding predicted_items
  predicted_items-Within ks [] items h hp = h
  predicted_items-Within ks (b ∷ predicted) items h hp =
      predicted_items-Within ks predicted (Map.insert b.slot (if_held b.held b.item) items)
        (insert-Within ks b.slot (if_held b.held b.item) items hp.0 h) hp.1

  IsRestored-of_IsPredicted :
      (s t : Containers Item) (c : Events) (sequence window : ℤ) (menu : Container Item)
      (ks : List ℤ) (items : List (ℤ × Option Item))
      → Map.lookup window s.open_menus ≡ some menu
      → index_of sequence s.pending ≡ none
      → if_held s.cursor_held s.cursor ≡ s.cursor
      → Within ks items
      → IsPredicted
          (record s { pending = s.pending ++ snapshot s sequence window ks ∷ [] })
          t
          window
          menu
          items
      → ((reject t c sequence).2 ≡ none) × IsRestored s (reject t c sequence).0 window
  unfolding restore cursor_changed snapshot
  IsRestored-of_IsPredicted s t c sequence window menu ks items found fresh held within h =
      rw (reject_newest s t c (snapshot s sequence window ks) h.pending fresh) (
        refl,
        record {
          slots = λ j.
              rw (found, h.found)
                (slot_of_menus _ _ window j refl
                  ∙ restore_menu_slot t c window menu h.filled ks items j h.found within
                      (h.missed j)
                  ∙ sym (slot_of_found s window j menu found));
          others = λ w ne.
              rw (found, h.found)
                (restore_menu_others t c window w h.filled (map (read_slot (some menu)) ks) ne
                  ∙ h.others w ne);
          pending =
              rw
                (
                  found,
                  h.found,
                  pending-restore_menu t c window h.filled (map (read_slot (some menu)) ks),
                  h.pending,
                )
                (take-append_length s.pending (snapshot s sequence window ks ∷ []));
          cursor = held;
          cursor_held = refl;
        },
      )

  cursor_changed-IsPredicted :
      (s t : Containers Item) (c : Events) (item : Option Item) (holds : Bool) (window : ℤ)
      (menu : Container Item) (items : List (ℤ × Option Item))
      → IsPredicted s t window menu items
      → IsPredicted s (cursor_changed t c item holds).0 window menu items
  unfolding cursor_changed
  cursor_changed-IsPredicted s t c item holds window menu items h = record {
    filled = h.filled;
    found = h.found;
    missed = h.missed;
    others = h.others;
    pending = h.pending;
  }

module _ {Item : Type 0} (range : Map ℤ (Option Item) → List (ℤ × Option Item))
    (visits : (P : ℤ × Option Item → Type 0) (m : Map ℤ (Option Item))
      → All P m
      → All P (range m)) where
  -- The same with the rejection at any later moment of the collector.
  pub reject-click_later :
      (s : Containers Item) (c : Events) (sequence window : ℤ) (menu : Container Item) (ks : List ℤ)
      (predicted : List (SlotSnapshot Item)) (d : Events)
      → Map.lookup window s.open_menus ≡ some menu
      → length s.pending < max_pending
      → index_of sequence s.pending ≡ none
      → if_held s.cursor_held s.cursor ≡ s.cursor
      → All (λ (b : SlotSnapshot Item). member b.slot ks ≡ true) predicted
      → let t = click range s c (snapshot s sequence window ks) predicted in
        ((reject t.0 d sequence).2 ≡ none) × IsRestored s (reject t.0 d sequence).0 window
  unfolding click snapshot
  reject-click_later s c sequence window menu ks predicted d found room fresh held within =
      let not_full : leb max_pending (length s.pending) ≡ false = ground arith in
      rw not_full (
        IsRestored-of_IsPredicted s _ _ sequence window menu ks
          (range (predicted_items [] predicted)) found fresh held
          (visits _ _ (predicted_items-Within ks predicted [] tt within))
          (apply_predicted-IsPredicted _ c window menu (range (predicted_items [] predicted))
            found))

  -- A click on an open menu, made while fewer than 256 clicks are pending and under a sequence that
  -- none of them has, whose prediction stays within the slots that its snapshot read, and then
  -- rejected: the rejection succeeds, every slot of the menu (also which slots are missing), every
  -- other menu, the pending clicks and the cursor are what they were before the click. `range` may
  -- visit the predicted items in any order, so long as it visits nothing else; the cursor is nil
  -- where none is held.
  pub reject-click :
      (s : Containers Item) (c : Events) (sequence window : ℤ) (menu : Container Item) (ks : List ℤ)
      (predicted : List (SlotSnapshot Item))
      → Map.lookup window s.open_menus ≡ some menu
      → length s.pending < max_pending
      → index_of sequence s.pending ≡ none
      → if_held s.cursor_held s.cursor ≡ s.cursor
      → All (λ (b : SlotSnapshot Item). member b.slot ks ≡ true) predicted
      → let t = click range s c (snapshot s sequence window ks) predicted in
        ((reject t.0 t.1 sequence).2 ≡ none) × IsRestored s (reject t.0 t.1 sequence).0 window
  reject-click s c sequence window menu ks predicted =
      let t = click range s c (snapshot s sequence window ks) predicted in
      reject-click_later s c sequence window menu ks predicted t.1

  -- The same where the client also changes its cursor after the click, to any item or none.
  pub reject-cursor_changed :
      (s : Containers Item) (c : Events) (sequence window : ℤ) (menu : Container Item) (ks : List ℤ)
      (predicted : List (SlotSnapshot Item)) (item : Option Item) (holds : Bool) (d : Events)
      → Map.lookup window s.open_menus ≡ some menu
      → length s.pending < max_pending
      → index_of sequence s.pending ≡ none
      → if_held s.cursor_held s.cursor ≡ s.cursor
      → All (λ (b : SlotSnapshot Item). member b.slot ks ≡ true) predicted
      → let t = click range s c (snapshot s sequence window ks) predicted in
        let u = cursor_changed t.0 t.1 item holds in
        ((reject u.0 d sequence).2 ≡ none) × IsRestored s (reject u.0 d sequence).0 window
  unfolding click snapshot cursor_changed
  reject-cursor_changed s c sequence window menu ks predicted item holds d found room fresh held
        within =
      let not_full : leb max_pending (length s.pending) ≡ false = ground arith in
      rw not_full (
        IsRestored-of_IsPredicted s _ _ sequence window menu ks
          (range (predicted_items [] predicted)) found fresh held
          (visits _ _ (predicted_items-Within ks predicted [] tt within))
          (cursor_changed-IsPredicted _ _ c item holds window menu
            (range (predicted_items [] predicted))
            (apply_predicted-IsPredicted _ c window menu (range (predicted_items [] predicted))
              found)))
