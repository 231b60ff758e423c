-- ===== src/World/Containers/Bounds/Histories.antt =====
-- Every mutator of world/containers.go and world/containers_click.go as one step of a history.
use headless_minecraft.Base.{
  ℕ, zero, suc, ◌≤◌, ◌≡◌, refl, Bool, false, not, Option, none, some, List, [], ◌∷◌, ℤ, pos, leb,
  ◌==◌, length, length-append, length-keep-le, length-drop, arith, inl, inr, Bool-cases, int_key,
  drop, length-take,
}
use headless_minecraft.Base.Map
use headless_minecraft.Base.Map.{Map, size-insert}
use headless_minecraft.Event.Containers.{ContainerOpened, ContainerTradesChanged}
use headless_minecraft.World.Containers.{
  Container, Containers, SlotSnapshot, Pending, Events, max_containers, max_recipes, max_pending,
  new_containers, put, opened, closed, slots_changed, property_changed, player_slot_changed,
  cursor_changed, recipes_changed, recipes_declared, trades_changed, craft_response,
}
use headless_minecraft.World.Containers.Clicks.{
  click, apply_predicted, confirm, confirm_at, index_of, restore_menu, restore,
  restore_newest_first, reject, reject_at, superseded,
}
use headless_minecraft.World.Containers.Bounds.{
  IsBounded, opened-IsBounded, closed-IsBounded, slots_changed-IsBounded,
  property_changed-IsBounded, recipes_changed-IsBounded, trades_changed-IsBounded,
}

module _ {Item : Type 0} where
  pub cursor_changed-IsBounded :
      (s : Containers Item) (c : Events) (item : Option Item) (held : Bool)
      → IsBounded s
      → IsBounded (cursor_changed s c item held).0
  unfolding cursor_changed
  cursor_changed-IsBounded s c item held v = record {
    menus = v.menus;
    each = v.each;
    recipes = v.recipes;
    pending = v.pending;
  }

  apply_predicted-IsBounded :
      (s : Containers Item) (c : Events) (window : ℤ) (items : List (ℤ × Option Item))
      → IsBounded s
      → IsBounded (apply_predicted s c window items).0
  unfolding apply_predicted
  apply_predicted-IsBounded s c window [] v = v
  apply_predicted-IsBounded s c window (e ∷ items) v =
      slots_changed-IsBounded s c window (e ∷ items) (pos 0) false v

  pub click-IsBounded :
      (range : Map ℤ (Option Item) → List (ℤ × Option Item)) (s : Containers Item) (c : Events)
      (p : Pending Item) (predicted : List (SlotSnapshot Item))
      → IsBounded s
      → IsBounded (click range s c p predicted).0
  unfolding click
  click-IsBounded range s c p predicted v = elim (Bool-cases (leb max_pending (length s.pending))) [
    | inl full ↦
        rw full
          (record { menus = v.menus; each = v.each; recipes = v.recipes; pending = v.pending })
    | inr room ↦ rw room (
        apply_predicted-IsBounded _ c p.window _ (record {
          menus = v.menus;
          each = v.each;
          recipes = v.recipes;
          pending = ground (arith, length-append s.pending (p ∷ []));
        }))
  ]

  confirm_at-IsBounded :
      (s : Containers Item) (n : ℤ) (at : Option ℕ) → IsBounded s → IsBounded (confirm_at s n at).0
  unfolding confirm_at
  confirm_at-IsBounded s n none v = v
  confirm_at-IsBounded s n (some zero) v = record {
    menus = v.menus;
    each = v.each;
    recipes = v.recipes;
    pending = omega (arith, length-drop 1 s.pending, v.pending);
  }
  confirm_at-IsBounded s n (some (suc i)) v = v

  superseded-IsBounded :
      (s : Containers Item) (window : ℤ) → IsBounded s → IsBounded (superseded s window)
  unfolding superseded
  superseded-IsBounded s window v = record {
    menus = v.menus;
    each = v.each;
    recipes = v.recipes;
    pending = omega (
      arith,
      length-keep-le (λ (p : Pending Item). not (p.window == window)) s.pending,
      v.pending,
    );
  }

-- The mutators that a client or a server can call, but for `Reject`.
pub data Mutation (Item : Type 0) : Type 0 where
  opens : ContainerOpened → Mutation Item
  closes : ℤ → Mutation Item
  slots_change : ℤ → List (ℤ × Option Item) → ℤ → Bool → Mutation Item
  property_changes : ℤ → ℤ → ℤ → Mutation Item
  player_slot_changes : ℤ → Option Item → Bool → Mutation Item
  cursor_changes : Option Item → Bool → Mutation Item
  recipes_change : List ℤ → List ℤ → Bool → Mutation Item
  recipes_are_declared : ℕ → Mutation Item
  trades_change : ContainerTradesChanged → Mutation Item
  crafts : ℤ → Mutation Item
  clicks : Pending Item → List (SlotSnapshot Item) → Mutation Item
  confirms : ℤ → Mutation Item
  supersedes : ℤ → Mutation Item

module _ {Item : Type 0} (range : Map ℤ (Option Item) → List (ℤ × Option Item)) where
  unfoldable pub mutate : Containers Item → Events → Mutation Item → Containers Item × Events
  mutate s c (opens e) = opened s c e
  mutate s c (closes id) = closed s c id
  mutate s c (slots_change id items n b) = slots_changed s c id items n b
  mutate s c (property_changes id p v) = property_changed s c id p v
  mutate s c (player_slot_changes slot item held) = player_slot_changed s c slot item held
  mutate s c (cursor_changes item held) = cursor_changed s c item held
  mutate s c (recipes_change added removed replaced) = recipes_changed s c added removed replaced
  mutate s c (recipes_are_declared n) = recipes_declared s c n
  mutate s c (trades_change e) = trades_changed s c e
  mutate s c (crafts id) = craft_response s c id
  mutate s c (clicks p predicted) = click range s c p predicted
  mutate s c (confirms n) = ((confirm s n).0, c)
  mutate s c (supersedes window) = (superseded s window, c)

  unfoldable pub mutate_all :
      Containers Item → Events → List (Mutation Item) → Containers Item × Events
  unfolding mutate
  mutate_all s c [] = (s, c)
  mutate_all s c (m ∷ ms) = let (t, d) = mutate s c m in mutate_all t d ms

  mutate-IsBounded :
      (s : Containers Item) (c : Events) (m : Mutation Item)
      → IsBounded s
      → IsBounded (mutate s c m).0
  unfolding mutate player_slot_changed recipes_declared craft_response confirm
  mutate-IsBounded s c (opens e) v = opened-IsBounded s c e v
  mutate-IsBounded s c (closes id) v = closed-IsBounded s c id v
  mutate-IsBounded s c (slots_change id items n b) v = slots_changed-IsBounded s c id items n b v
  mutate-IsBounded s c (property_changes id p w) v = property_changed-IsBounded s c id p w v
  mutate-IsBounded s c (player_slot_changes slot item held) v =
      slots_changed-IsBounded s c (pos 0) _ (pos 0) false v
  mutate-IsBounded s c (cursor_changes item held) v = cursor_changed-IsBounded s c item held v
  mutate-IsBounded s c (recipes_change added removed replaced) v =
      recipes_changed-IsBounded s c added removed replaced v
  mutate-IsBounded s c (recipes_are_declared n) v = record {
    menus = v.menus;
    each = v.each;
    recipes = v.recipes;
    pending = v.pending;
  }
  mutate-IsBounded s c (trades_change e) v = trades_changed-IsBounded s c e v
  mutate-IsBounded s c (crafts id) v = v
  mutate-IsBounded s c (clicks p predicted) v = click-IsBounded range s c p predicted v
  mutate-IsBounded s c (confirms n) v = confirm_at-IsBounded s n (index_of n s.pending) v
  mutate-IsBounded s c (supersedes window) v = superseded-IsBounded s window v

  -- From any store within its bounds, every history of mutators without a rejection ends in a store
  -- within them: at most 64 menus, 1024 slots and 64 properties in each, 8192 recipes and 256
  -- pending clicks.
  pub mutate_all-IsBounded :
      (s : Containers Item) (c : Events) (ms : List (Mutation Item))
      → IsBounded s
      → IsBounded (mutate_all s c ms).0
  unfolding mutate_all
  mutate_all-IsBounded s c [] v = v
  mutate_all-IsBounded s c (m ∷ ms) v =
      mutate_all-IsBounded (mutate s c m).0 (mutate s c m).1 ms (mutate-IsBounded s c m v)

module _ {Item : Type 0} where
  pub new_containers-IsBounded : IsBounded (new_containers {Item = Item})
  new_containers-IsBounded = record {
    menus = omega arith;
    each = tt;
    recipes = omega arith;
    pending = omega arith;
  }

  -- What a rejection keeps: all the bounds but that on the slots of a menu.
  abbrev pub StoreIsBounded : Containers Item → Type 0
  StoreIsBounded s =
      (Map.size s.open_menus ≤ max_containers)
      × (Map.size s.recipes ≤ max_recipes)
      × (length s.pending ≤ max_pending)

  put-StoreIsBounded :
      (s : Containers Item) (id : ℤ) (menu old : Container Item)
      → Map.lookup id s.open_menus ≡ some old
      → StoreIsBounded s
      → StoreIsBounded (put s id menu)
  put-StoreIsBounded s id menu old found v = ground (arith, size-insert id menu s.open_menus)

  restore-StoreIsBounded :
      (s : Containers Item) (c : Events) (p : Pending Item)
      → StoreIsBounded s
      → StoreIsBounded (restore s c p).0
  unfolding restore cursor_changed
  restore-StoreIsBounded s c p v = menu (Map.lookup p.window s.open_menus) p.before refl
    where
      menu :
          (o : Option (Container Item)) (bs : List (SlotSnapshot Item))
          → Map.lookup p.window s.open_menus ≡ o
          → StoreIsBounded (restore_menu s c p.window o bs).0
      menu none bs e = v
      menu (some m) [] e = v
      menu (some m) (b ∷ bs) e = put-StoreIsBounded s p.window _ m e v

  restore_newest_first-StoreIsBounded :
      (s : Containers Item) (c : Events) (ps : List (Pending Item))
      → StoreIsBounded s
      → StoreIsBounded (restore_newest_first s c ps).0
  unfolding restore_newest_first
  restore_newest_first-StoreIsBounded s c [] v = v
  restore_newest_first-StoreIsBounded s c (p ∷ newer) v =
      restore-StoreIsBounded _ _ p (restore_newest_first-StoreIsBounded s c newer v)

  -- A rejection, of a known or an unknown sequence, keeps at most 64 menus, 8192 recipes and 256
  -- pending clicks.
  pub reject-StoreIsBounded :
      (s : Containers Item) (c : Events) (sequence : ℤ)
      → StoreIsBounded s
      → StoreIsBounded (reject s c sequence).0
  unfolding reject
  reject-StoreIsBounded s c sequence v = at (index_of sequence s.pending)
    where
      at : (o : Option ℕ) → StoreIsBounded (reject_at s c sequence o).0
      at none = v
      at (some i) =
          let r = restore_newest_first-StoreIsBounded s c (drop i s.pending) v in
          (
            r.0,
            r.1,
            omega
                (arith, r.2, length-take i (restore_newest_first s c (drop i s.pending)).0.pending),
          )
