-- ===== src/World/Containers/Rollback/Restore.antt =====
-- What `Click` and `Reject` of world/containers_click.go write, slot by slot.
use headless_minecraft.Base.{
  ◌≡◌, refl, ◌∙◌, ap, Bool, true, false, ◌||◌, Option, none, some, List, [], ◌∷◌, ◌++◌, map, ℤ,
  if◌then◌else◌, ◌==◌, ==_iff, length, arith, inl, inr, Bool-cases, int_key, take, drop, All,
}
use headless_minecraft.Base.Map
use headless_minecraft.Base.Map.{Map, lookup-insert, lookup-delete, lookup-insert_self}
use headless_minecraft.World.Containers.{
  Container, Containers, SlotSnapshot, Pending, Events, track, slot_step, slot_loop, slots_changed,
}
use headless_minecraft.World.Containers.Clicks.{
  read_entry, read_slot, apply_predicted, index_of, restored_entry, restored_slots, restore_menu,
  restore, restore_newest_first, reject, reject_at,
}

unfoldable pub member : ℤ → List ℤ → Bool
member j [] = false
member j (x ∷ xs) = x == j || member j xs

pub misses_of_member :
    (j k : ℤ) (ks : List ℤ) → member k ks ≡ true → member j ks ≡ false → (k == j) ≡ false
misses_of_member j k ks hk hj = elim (Bool-cases (k == j)) [
  | inr ne ↦ ne
  | inl eq ↦ ground (arith, ap (λ x. member x ks) ((==_iff k j).0 eq))
]

module _ {Item : Type 0} where
  -- What a menu's slot holds: missing, present and empty, or present with an item.
  unfoldable pub slot_of : Containers Item → ℤ → ℤ → Option (Option Item)
  slot_of s window slot = elim (Map.lookup window s.open_menus) [
    | none ↦ none
    | some menu ↦ Map.lookup slot menu.slots
  ]

  pub slot_of_found :
      (s : Containers Item) (window j : ℤ) (menu : Container Item)
      → Map.lookup window s.open_menus ≡ some menu
      → slot_of s window j ≡ Map.lookup j menu.slots
  unfolding slot_of
  slot_of_found s window j menu e = rw (e, slot_of)

  pub restored_entry_lem :
      (k j : ℤ) (menu slots : Map ℤ (Option Item)) (o : Option (Option Item))
      → Map.lookup k menu ≡ o
      → Map.lookup j (restored_entry slots (read_entry k o))
        ≡ (if k == j then Map.lookup j menu else Map.lookup j slots)
  restored_entry_lem k j menu slots none e = ground (arith, lookup-delete k j slots, ==_iff k j)
  restored_entry_lem k j menu slots (some none) e =
      ground (arith, lookup-insert k j none slots, ==_iff k j)
  restored_entry_lem k j menu slots (some (some x)) e =
      ground (arith, lookup-insert k j (some x) slots, ==_iff k j)

  pub restored_slots_lem :
      (j : ℤ) (menu : Container Item) (slots : Map ℤ (Option Item)) (ks : List ℤ)
      → Map.lookup j (restored_slots slots (map (read_slot (some menu)) ks))
        ≡ (if member j ks then Map.lookup j menu.slots else Map.lookup j slots)
  unfolding restored_slots member
  restored_slots_lem j menu slots [] = refl
  restored_slots_lem j menu slots (k ∷ ks) = ground (
    arith,
    restored_slots_lem j menu (restored_entry slots (read_slot (some menu) k)) ks,
    restored_entry_lem k j menu.slots slots (Map.lookup k menu.slots) refl,
  )

  abbrev pub Misses : ℤ → List (ℤ × Option Item) → Type 0
  Misses j items = All (λ (e : ℤ × Option Item). (e.0 == j) ≡ false) items

  pub slot_loop-Misses :
      (j : ℤ) (acc : Container Item × List ℤ) (items : List (ℤ × Option Item))
      → Misses j items
      → Map.lookup j (slot_loop acc items).0.slots ≡ Map.lookup j acc.0.slots
  unfolding slot_loop slot_step
  slot_loop-Misses j acc [] h = refl
  slot_loop-Misses j (menu, slots) ((k, x) ∷ items) h =
      slot_loop-Misses j (slot_step (menu, slots) (k, x)) items h.1
      ∙ ground (arith, h.0, lookup-insert k j x menu.slots)

  -- The store after a prediction, seen from a menu that was open before it.
  pub record IsPredicted (s t : Containers Item) (window : ℤ) (menu : Container Item)
      (items : List (ℤ × Option Item)) : Type 0 where
    pub filled : Container Item
    pub found : Map.lookup window t.open_menus ≡ some filled
    pub missed : (j : ℤ) → Misses j items → Map.lookup j filled.slots ≡ Map.lookup j menu.slots
    pub others :
        (w : ℤ) → (window == w) ≡ false → Map.lookup w t.open_menus ≡ Map.lookup w s.open_menus
    pub pending : t.pending ≡ s.pending

  pub apply_predicted-IsPredicted :
      (s : Containers Item) (c : Events) (window : ℤ) (menu : Container Item)
      (items : List (ℤ × Option Item))
      → Map.lookup window s.open_menus ≡ some menu
      → IsPredicted s (apply_predicted s c window items).0 window menu items
  unfolding apply_predicted slots_changed
  apply_predicted-IsPredicted s c window menu [] e = record {
    filled = menu;
    found = e;
    missed = λ j h. refl;
    others = λ w h. refl;
    pending = refl;
  }
  apply_predicted-IsPredicted s c window menu (i ∷ items) e =
      rw (e, track, apply_predicted)
        (record {
          filled = filled;
          found = lookup-insert_self window filled s.open_menus;
          missed = missed;
          others = λ w h. rw (lookup-insert window w filled s.open_menus, h);
          pending = refl;
        })
    where
      filled : Container Item
      filled = (slot_loop (menu, []) (i ∷ items)).0

      missed : (j : ℤ) → Misses j (i ∷ items) → Map.lookup j filled.slots ≡ Map.lookup j menu.slots
      missed j h = slot_loop-Misses j (menu, []) (i ∷ items) h

  -- The predicted items lie on the slots that the snapshot read.
  abbrev pub Within : List ℤ → List (ℤ × Option Item) → Type 0
  Within ks items = All (λ (e : ℤ × Option Item). member e.0 ks ≡ true) items

  pub Misses-of_Within :
      (j : ℤ) (ks : List ℤ) (items : List (ℤ × Option Item))
      → Within ks items
      → member j ks ≡ false
      → Misses j items
  Misses-of_Within j ks [] h n = tt
  Misses-of_Within j ks ((k, x) ∷ items) h n =
      (misses_of_member j k ks h.0 n, Misses-of_Within j ks items h.1 n)

  -- A slot after `restore` has written what the snapshot read, over a menu that the prediction filled.
  pub restore_menu_slot :
      (t : Containers Item) (c : Events) (window : ℤ) (menu filled : Container Item) (ks : List ℤ)
      (items : List (ℤ × Option Item)) (j : ℤ)
      → Map.lookup window t.open_menus ≡ some filled
      → Within ks items
      → (Misses j items → Map.lookup j filled.slots ≡ Map.lookup j menu.slots)
      → slot_of (restore_menu t c window (some filled) (map (read_slot (some menu)) ks)).0 window j
        ≡ Map.lookup j menu.slots
  unfolding restore_menu slot_of
  restore_menu_slot t c window menu filled [] items j found w missed =
      rw (found, slot_of) (missed (Misses-of_Within j [] items w (unfold member in refl)))
  restore_menu_slot t c window menu filled (k ∷ ks) items j found w missed =
      rw (lookup-insert_self window written t.open_menus, slot_of)
        (restored_slots_lem j menu filled.slots (k ∷ ks) ∙ settled)
    where
      written : Container Item
      written = record filled {
        slots = restored_slots filled.slots (map (read_slot (some menu)) (k ∷ ks));
      }

      settled :
          (if member j (k ∷ ks) then Map.lookup j menu.slots else Map.lookup j filled.slots)
          ≡ Map.lookup j menu.slots
      settled = elim (Bool-cases (member j (k ∷ ks))) [
        | inl hit ↦ rw hit
        | inr miss ↦ rw miss (missed (Misses-of_Within j (k ∷ ks) items w miss))
      ]

  pub restore_menu_others :
      (t : Containers Item) (c : Events) (window w : ℤ) (filled : Container Item)
      (bs : List (SlotSnapshot Item))
      → (window == w) ≡ false
      → Map.lookup w (restore_menu t c window (some filled) bs).0.open_menus
        ≡ Map.lookup w t.open_menus
  unfolding restore_menu
  restore_menu_others t c window w filled [] h = refl
  restore_menu_others t c window w filled (b ∷ bs) h = rw (lookup-insert window w _ t.open_menus, h)

  pub pending-restore_menu :
      (t : Containers Item) (c : Events) (window : ℤ) (filled : Container Item)
      (bs : List (SlotSnapshot Item))
      → (restore_menu t c window (some filled) bs).0.pending ≡ t.pending
  unfolding restore_menu
  pending-restore_menu t c window filled [] = refl
  pending-restore_menu t c window filled (b ∷ bs) = refl

  pub index_of-append :
      (n : ℤ) (p : Pending Item) (ps : List (Pending Item))
      → index_of n ps ≡ none
      → p.sequence ≡ n
      → index_of n (ps ++ p ∷ []) ≡ some (length ps)
  unfolding index_of
  index_of-append n p [] h e = ground (arith, ==_iff p.sequence n)
  index_of-append n p (q ∷ ps) h e = ground (arith, index_of-append n p ps)

  pub drop-append_length :
      (ps : List (Pending Item)) (p : Pending Item) → drop (length ps) (ps ++ p ∷ []) ≡ p ∷ []
  drop-append_length [] p = refl
  drop-append_length (q ∷ ps) p = drop-append_length ps p

  pub slot_of_menus :
      (t u : Containers Item) (window j : ℤ)
      → t.open_menus ≡ u.open_menus
      → slot_of t window j ≡ slot_of u window j
  unfolding slot_of
  slot_of_menus t u window j e =
      ap (λ (m : Map ℤ (Container Item)). slot_of (record t { open_menus = m }) window j) e

  -- Rejecting the newest click restores its snapshot and drops it.
  pub reject_newest :
      (s t : Containers Item) (c : Events) (p : Pending Item)
      → t.pending ≡ s.pending ++ p ∷ []
      → index_of p.sequence s.pending ≡ none
      → reject t c p.sequence ≡ (
        record (restore t c p).0 { pending = take (length s.pending) (restore t c p).0.pending },
        (restore t c p).1,
        none,
      )
  unfolding reject
  reject_newest s t c p e fresh =
      rw (ap (index_of p.sequence) e ∙ index_of-append p.sequence p s.pending fresh refl, reject_at)
        (rw (ap (drop (length s.pending)) e ∙ drop-append_length s.pending p, restore_newest_first)
          refl)
