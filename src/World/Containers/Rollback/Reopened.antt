-- ===== src/World/Containers/Rollback/Reopened.antt =====
-- A rejection after the server opened another menu under the same id.
use headless_minecraft.Base.{
  ◌≤◌, ◌<◌, ◌≡◌, refl, sym, ◌∙◌, true, false, Option, none, some, List, [], ◌∷◌, ◌++◌, map, ℤ, leb,
  ==_refl, int_key, length, arith,
}
use headless_minecraft.Base.Map
use headless_minecraft.Base.Map.{Map, lookup-insert_self, lookup-delete, size-delete-lt}
use headless_minecraft.Event.Containers.{ContainerOpened}
use headless_minecraft.World.Containers.{
  Container, Containers, SlotSnapshot, Pending, Events, max_containers, max_pending, track,
  new_container, opened, open_tracked, cursor_changed,
}
use headless_minecraft.World.Containers.Clicks.{
  read_slot, snapshot, predicted_items, click, apply_predicted, index_of, restored_slots,
  restore_menu, restore, reject,
}
use headless_minecraft.World.Containers.Bounds.{IsBounded}
use headless_minecraft.World.Containers.Bounds.Histories.{click-IsBounded}
use headless_minecraft.World.Containers.Rollback.Restore.{
  member, slot_of, slot_of_found, slot_of_menus, restored_slots_lem, reject_newest, IsPredicted,
  apply_predicted-IsPredicted,
}

module _ {Item : Type 0} where
  -- A slot that the snapshot read, after `restore` wrote it over any menu at all.
  restore_menu-member :
      (t : Containers Item) (c : Events) (window : ℤ) (menu other : Container Item) (ks : List ℤ)
      (j : ℤ)
      → member j ks ≡ true
      → slot_of (restore_menu t c window (some other) (map (read_slot (some menu)) ks)).0 window j
        ≡ Map.lookup j menu.slots
  unfolding restore_menu slot_of
  restore_menu-member t c window menu other [] j m = unfold member in cc m
  restore_menu-member t c window menu other (k ∷ ks) j m =
      rw (lookup-insert_self window written t.open_menus, slot_of)
        (restored_slots_lem j menu other.slots (k ∷ ks) ∙ rw m)
    where
      written : Container Item
      written = record other {
        slots = restored_slots other.slots (map (read_slot (some menu)) (k ∷ ks));
      }

  unfoldable pub menu_from : ContainerOpened → Container Item
  menu_from e = record (new_container e.container_id) {
    menu_type = e.menu_type;
    title = e.title;
    slot_count = e.slot_count;
    entity_id = e.entity_id;
    entity_known = e.entity_known;
  }

  -- Opening a menu with room for it: the store gets an empty menu under its id, whatever was there,
  -- and keeps its pending clicks.
  opened_menu :
      (s : Containers Item) (c : Events) (e : ContainerOpened)
      → Map.size s.open_menus ≤ max_containers
      → Map.contains e.container_id s.open_menus ≡ true
      → (Map.lookup e.container_id (opened s c e).0.open_menus ≡ some (menu_from e))
        × ((opened s c e).0.pending ≡ s.pending)
  unfolding opened open_tracked menu_from
  opened_menu s c e room open_before =
      let id : ℤ = e.container_id in
      let gone : Map.lookup id (Map.delete id s.open_menus) ≡ none =
        rw (lookup-delete id id s.open_menus, ==_refl id) in
      let fits : leb max_containers (Map.size (Map.delete id s.open_menus)) ≡ false =
        ground (arith, size-delete-lt id s.open_menus open_before) in
      rw (gone, track) (rw fits (lookup-insert_self id _ _, refl))

  restore-member :
      (s u : Containers Item) (c : Events) (sequence window : ℤ) (menu other : Container Item)
      (ks : List ℤ) (j : ℤ)
      → Map.lookup window s.open_menus ≡ some menu
      → Map.lookup window u.open_menus ≡ some other
      → member j ks ≡ true
      → slot_of (restore u c (snapshot s sequence window ks)).0 window j ≡ slot_of s window j
  unfolding restore cursor_changed snapshot
  restore-member s u c sequence window menu other ks j old new m =
      rw (old, new)
        (slot_of_menus _ _ window j refl
          ∙ restore_menu-member u c window menu other ks j m
          ∙ sym (slot_of_found s window j menu old))

  reject-member :
      (s t : Containers Item) (c d : Events) (sequence : ℤ) (e : ContainerOpened)
      (menu : Container Item) (ks : List ℤ) (items : List (ℤ × Option Item)) (j : ℤ)
      → Map.lookup e.container_id s.open_menus ≡ some menu
      → index_of sequence s.pending ≡ none
      → IsPredicted
          (record s { pending = s.pending ++ snapshot s sequence e.container_id ks ∷ [] })
          t
          e.container_id
          menu
          items
      → Map.size t.open_menus ≤ max_containers
      → member j ks ≡ true
      → slot_of (reject (opened t c e).0 d sequence).0 e.container_id j ≡ slot_of s e.container_id j
  unfolding snapshot
  reject-member s t c d sequence e menu ks items j found fresh h fits m =
      let id : ℤ = e.container_id in
      let new = opened_menu t c e fits (rw (h.found)) in
      rw (reject_newest s (opened t c e).0 d (snapshot s sequence id ks) (new.1 ∙ h.pending) fresh)
        (slot_of_menus _ _ id j refl
          ∙ restore-member s (opened t c e).0 d sequence id menu _ ks j found new.0 m)

module _ {Item : Type 0} (range : Map ℤ (Option Item) → List (ℤ × Option Item)) where
  -- A click on an open menu, then the server opening another menu under the same id, then the
  -- rejection of the click: every slot that the click's snapshot read shows in the new menu what
  -- it held in the old one. The store is within its bounds, fewer than 256 clicks are pending and
  -- none of them has the click's sequence.
  pub reject-opened :
      (s : Containers Item) (c : Events) (sequence : ℤ) (e : ContainerOpened)
      (menu : Container Item) (ks : List ℤ) (predicted : List (SlotSnapshot Item)) (j : ℤ)
      → IsBounded s
      → Map.lookup e.container_id s.open_menus ≡ some menu
      → length s.pending < max_pending
      → index_of sequence s.pending ≡ none
      → member j ks ≡ true
      → let t = click range s c (snapshot s sequence e.container_id ks) predicted in
        let u = opened t.0 t.1 e in
        slot_of (reject u.0 u.1 sequence).0 e.container_id j ≡ slot_of s e.container_id j
  unfolding click snapshot
  reject-opened s c sequence e menu ks predicted j v found room fresh m =
      let id : ℤ = e.container_id in
      let p : Pending Item = snapshot s sequence id ks in
      let items : List (ℤ × Option Item) = range (predicted_items [] predicted) in
      let t = apply_predicted (record s { pending = s.pending ++ p ∷ [] }) c id items in
      let not_full : leb max_pending (length s.pending) ≡ false = ground arith in
      let bounded : IsBounded t.0 = rw not_full at (click-IsBounded range s c p predicted v) in
      rw not_full (
        reject-member s t.0 t.1 (opened t.0 t.1 e).1 sequence e menu ks items j found fresh
          (apply_predicted-IsPredicted _ c id menu items found) bounded.menus m)
