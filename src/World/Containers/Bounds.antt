-- ===== src/World/Containers/Bounds.antt =====
-- The bounds of world/containers.go: what a peer sends cannot grow the stores without limit.
pub mod Histories
use headless_minecraft.Base.{
  ℕ, suc, ◌+◌, ◌≤◌, ◌≡◌, refl, Bool, true, false, not, ◌&&◌, Option, none, some, List, [], ◌∷◌,
  ◌++◌, ℤ, leb, if◌then◌else◌, ◌==◌, keep, length, length-append, length-keep-le, length-drop,
  arith, inl, inr, Option-cases, Bool-cases, int_key, take, length-take,
}
use headless_minecraft.Base.Map
use headless_minecraft.Base.Map.{
  Map, AllValues, AllValues-insert, AllValues-delete, AllValues-lookup, size-insert, size-delete-le,
  lookup-insert_self,
}
use headless_minecraft.Event.Containers.{ContainerOpened, ContainerTradesChanged}
use headless_minecraft.World.Containers.{
  Container, Containers, SlotSnapshot, Pending, Events, max_containers, max_slots, max_properties,
  max_recipes, max_pending, new_container, put, track, opened, open_tracked, closed, slot_step,
  slot_loop, set_state, fill_tracked, slots_changed, property_tracked, property_changed,
  player_slot_changed, cursor_changed, delete_all, has_recipe, recipe_step, recipe_loop,
  recipes_changed, recipes_declared, trades_changed, craft_response,
}

size-delete_all-le :
    (recipes : Map ℤ Bool) (removed : List ℤ)
    → Map.size (delete_all recipes removed) ≤ Map.size recipes
unfolding delete_all
size-delete_all-le recipes [] = omega arith
size-delete_all-le recipes (id ∷ removed) =
    omega (arith, size-delete_all-le (Map.delete id recipes) removed, size-delete-le id recipes)

module _ {Item : Type 0} where
  pub record MenuIsBounded (m : Container Item) : Type 0 where
    pub slots : Map.size m.slots ≤ max_slots
    pub properties : Map.size m.properties ≤ max_properties

  pub record IsBounded (s : Containers Item) : Type 0 where
    pub menus : Map.size s.open_menus ≤ max_containers
    pub each : AllValues MenuIsBounded s.open_menus
    pub recipes : Map.size s.recipes ≤ max_recipes
    pub pending : length s.pending ≤ max_pending

  slot_step-MenuIsBounded :
      (menu : Container Item) (slots : List ℤ) (slot : ℤ) (item : Option Item)
      → MenuIsBounded menu
      → MenuIsBounded (slot_step (menu, slots) (slot, item)).0
  unfolding slot_step
  slot_step-MenuIsBounded menu slots slot item v = ground (arith, size-insert slot item menu.slots)

  slot_loop-MenuIsBounded :
      (menu : Container Item) (slots : List ℤ) (items : List (ℤ × Option Item))
      → MenuIsBounded menu
      → MenuIsBounded (slot_loop (menu, slots) items).0
  unfolding slot_loop
  slot_loop-MenuIsBounded menu slots [] v = v
  slot_loop-MenuIsBounded menu slots ((slot, item) ∷ rest) v =
      slot_loop-MenuIsBounded (slot_step (menu, slots) (slot, item)).0
        (slot_step (menu, slots) (slot, item)).1 rest
        (slot_step-MenuIsBounded menu slots slot item v)

  put-IsBounded :
      (s : Containers Item) (id : ℤ) (menu old : Container Item)
      → IsBounded s
      → Map.lookup id s.open_menus ≡ some old
      → MenuIsBounded menu
      → IsBounded (put s id menu)
  put-IsBounded s id menu old v found m = record {
    menus = ground (arith, size-insert id menu s.open_menus);
    each = AllValues-insert MenuIsBounded id menu s.open_menus v.each m;
    recipes = v.recipes;
    pending = v.pending;
  }

  new_container-MenuIsBounded : (id : ℤ) → MenuIsBounded (new_container id)
  new_container-MenuIsBounded id = record { slots = omega arith; properties = omega arith }

  put_new-IsBounded :
      (s : Containers Item) (id : ℤ)
      → IsBounded s
      → leb max_containers (Map.size s.open_menus) ≡ false
      → IsBounded (put s id (new_container id))
  put_new-IsBounded s id v room = record {
    menus = ground (arith, size-insert id (new_container id) s.open_menus);
    each =
        AllValues-insert MenuIsBounded id (new_container id) s.open_menus v.each
          (new_container-MenuIsBounded id);
    recipes = v.recipes;
    pending = v.pending;
  }

  -- What `track` returns: the store with the menu that it found or made, or only a count.
  Tracks : ℤ → Containers Item × Option (Container Item) → Type 0
  Tracks id (t, none) = IsBounded t
  Tracks id (t, some menu) =
      IsBounded t × (Map.lookup id t.open_menus ≡ some menu) × MenuIsBounded menu

  track-Tracks : (s : Containers Item) (id : ℤ) → IsBounded s → Tracks id (track s id)
  unfolding Tracks track
  track-Tracks s id v = elim (Option-cases (Map.lookup id s.open_menus)) [
    | inr (m, e) ↦ rw (e, track) (v, e, AllValues-lookup MenuIsBounded id m s.open_menus v.each e)
    | inl e ↦
        rw (e, track)
          (elim (Bool-cases (leb max_containers (Map.size s.open_menus))) [
            | inl full ↦ rw full (record {
              menus = v.menus;
              each = v.each;
              recipes = v.recipes;
              pending = v.pending;
            })
            | inr room ↦ rw room (
              put_new-IsBounded s id v room,
              lookup-insert_self id (new_container id) s.open_menus,
              new_container-MenuIsBounded id,
            )
          ])
  ]

  deleted-IsBounded :
      (s : Containers Item) (id : ℤ)
      → IsBounded s
      → IsBounded (record s { open_menus = Map.delete id s.open_menus })
  deleted-IsBounded s id v = record {
    menus = omega (arith, size-delete-le id s.open_menus, v.menus);
    each = AllValues-delete MenuIsBounded id s.open_menus v.each;
    recipes = v.recipes;
    pending = v.pending;
  }

  open_tracked-IsBounded :
      (r : Containers Item × Option (Container Item)) (c : Events) (e : ContainerOpened)
      → Tracks e.container_id r
      → IsBounded (open_tracked r c e).0
  unfolding open_tracked Tracks
  open_tracked-IsBounded (s, none) c e t = t
  open_tracked-IsBounded (s, some menu) c e t =
      put-IsBounded s e.container_id _ menu t.0 t.1
        (record { slots = t.2.slots; properties = t.2.properties })

  pub opened-IsBounded :
      (s : Containers Item) (c : Events) (e : ContainerOpened)
      → IsBounded s
      → IsBounded (opened s c e).0
  unfolding opened
  opened-IsBounded s c e v =
      open_tracked-IsBounded _ c e
        (track-Tracks _ e.container_id (deleted-IsBounded s e.container_id v))

  pub closed-IsBounded :
      (s : Containers Item) (c : Events) (id : ℤ) → IsBounded s → IsBounded (closed s c id).0
  unfolding closed
  closed-IsBounded s c id v = elim (Bool-cases (Map.contains id s.open_menus)) [
    | inr e ↦ rw e v
    | inl e ↦ rw e (record {
      menus = omega (arith, size-delete-le id s.open_menus, v.menus);
      each = AllValues-delete MenuIsBounded id s.open_menus v.each;
      recipes = v.recipes;
      pending =
          omega (
            arith,
            length-keep-le (λ (p : Pending Item). not (p.window == id)) s.pending,
            v.pending,
          );
    })
  ]

  set_state-MenuIsBounded :
      (menu : Container Item) (n : ℤ) (b : Bool)
      → MenuIsBounded menu
      → MenuIsBounded (set_state menu n b)
  unfolding set_state
  set_state-MenuIsBounded menu n true v = record { slots = v.slots; properties = v.properties }
  set_state-MenuIsBounded menu n false v = v

  fill_tracked-IsBounded :
      (r : Containers Item × Option (Container Item)) (c : Events) (id : ℤ)
      (items : List (ℤ × Option Item)) (n : ℤ) (b : Bool)
      → Tracks id r
      → IsBounded (fill_tracked r c id items n b).0
  unfolding fill_tracked Tracks
  fill_tracked-IsBounded (s, none) c id items n b t = t
  fill_tracked-IsBounded (s, some menu) c id items n b t =
      put-IsBounded s id _ menu t.0 t.1
        (slot_loop-MenuIsBounded _ [] items (set_state-MenuIsBounded menu n b t.2))

  pub slots_changed-IsBounded :
      (s : Containers Item) (c : Events) (id : ℤ) (items : List (ℤ × Option Item)) (n : ℤ)
      (b : Bool)
      → IsBounded s
      → IsBounded (slots_changed s c id items n b).0
  unfolding slots_changed
  slots_changed-IsBounded s c id items n b v =
      fill_tracked-IsBounded _ c id items n b (track-Tracks s id v)

  property_menu-MenuIsBounded :
      (menu : Container Item) (property value : ℤ)
      → MenuIsBounded menu
      → not (Map.contains property menu.properties) && leb max_properties (Map.size menu.properties)
        ≡ false
      → MenuIsBounded (record menu { properties = Map.insert property value menu.properties })
  property_menu-MenuIsBounded menu property value v e =
      ground (arith, size-insert property value menu.properties)

  property_tracked-IsBounded :
      (r : Containers Item × Option (Container Item)) (c : Events) (id property value : ℤ)
      → Tracks id r
      → IsBounded (property_tracked r c id property value).0
  unfolding property_tracked Tracks
  property_tracked-IsBounded (s, none) c id property value t = t
  property_tracked-IsBounded (s, some menu) c id property value t =
      elim (Bool-cases (
        not (Map.contains property menu.properties)
        && leb max_properties (Map.size menu.properties))) [
          | inl e ↦ rw e t.0
          | inr e ↦ rw e (
              put-IsBounded s id _ menu t.0 t.1
                (property_menu-MenuIsBounded menu property value t.2 e))
        ]

  pub property_changed-IsBounded :
      (s : Containers Item) (c : Events) (id property value : ℤ)
      → IsBounded s
      → IsBounded (property_changed s c id property value).0
  unfolding property_changed
  property_changed-IsBounded s c id property value v =
      property_tracked-IsBounded _ c id property value (track-Tracks s id v)

  recipe_step-IsBounded :
      (s : Containers Item) (kept : List ℤ) (id : ℤ)
      → IsBounded s
      → IsBounded (recipe_step (s, kept) id).0
  unfolding recipe_step
  recipe_step-IsBounded s kept id v = record {
    menus = ground (arith, v.menus);
    each =
        elim (Bool-cases (not (has_recipe s.recipes id) && leb max_recipes (Map.size s.recipes))) [
          | inl e ↦ rw e v.each
          | inr e ↦ rw e v.each
        ];
    recipes = ground (arith, size-insert id true s.recipes);
    pending = ground (arith, v.pending);
  }

  recipe_loop-IsBounded :
      (s : Containers Item) (kept added : List ℤ)
      → IsBounded s
      → IsBounded (recipe_loop (s, kept) added).0
  unfolding recipe_loop
  recipe_loop-IsBounded s kept [] v = v
  recipe_loop-IsBounded s kept (id ∷ added) v =
      recipe_loop-IsBounded (recipe_step (s, kept) id).0 (recipe_step (s, kept) id).1 added
        (recipe_step-IsBounded s kept id v)

  pub recipes_changed-IsBounded :
      (s : Containers Item) (c : Events) (added removed : List ℤ) (replaced : Bool)
      → IsBounded s
      → IsBounded (recipes_changed s c added removed replaced).0
  unfolding recipes_changed
  recipes_changed-IsBounded s c added removed replaced v =
      recipe_loop-IsBounded _ [] added
        (record { menus = v.menus; each = v.each; recipes = start replaced; pending = v.pending })
    where
      start : (b : Bool) → Map.size (delete_all (if b then [] else s.recipes) removed) ≤ max_recipes
      start true = omega (arith, size-delete_all-le [] removed)
      start false = omega (arith, size-delete_all-le s.recipes removed, v.recipes)

  pub trades_changed-IsBounded :
      (s : Containers Item) (c : Events) (e : ContainerTradesChanged)
      → IsBounded s
      → IsBounded (trades_changed s c e).0
  unfolding trades_changed Tracks
  trades_changed-IsBounded s c e v =
      tracked (track s e.container_id) (track-Tracks s e.container_id v)
    where
      tracked :
          (r : Containers Item × Option (Container Item)) → Tracks e.container_id r → IsBounded r.0
      tracked (t, none) h = h
      tracked (t, some menu) h = h.0
