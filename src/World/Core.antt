-- ===== src/World/Core.antt =====
-- world/world.go, world/reducer.go and world/snapshot.go: the reducers, the one revision counter, and
-- the error that poisons the world. A store is reached through a pointer in the source: a reducer
-- takes the stores and returns them, changed or not, also where it fails. The menus are named, since
-- `Amend` changes them, and the other stores are one value of any type. A lock makes each operation
-- atomic.
pub mod Revisions
mod Tests
use headless_minecraft.Base.{
  ℕ, ◌+◌, ◌%◌, ◌^◌, String, Bool, true, false, Option, none, some, List, [], ◌∷◌, ◌++◌, ℤ, pos,
  if◌then◌else◌,
}
use headless_minecraft.Event.{Collector, Stamped, new_collector, events}
use headless_minecraft.Version.Batch.{Batch}

pub record LocalRef : Type 0 where
  pub entity_id : ℤ
  pub known : Bool

pub record Context : Type 0 where
  pub revision : ℕ
  pub state : String
  pub local : LocalRef

-- `ErrWorldPoisoned` carries the reducer's error.
pub data WorldError (Err : Type 0) : Type 0 where
  nil_reducer : WorldError Err
  world_started : WorldError Err
  world_poisoned : Err → WorldError Err
  mutation_failed : Err → WorldError Err

-- `revision++` on a uint64.
abbrev pub next_revision : ℕ → ℕ
next_revision r = (r + 1) % 2 ^ 64

-- What a reducer leaves: the context, the collector and the stores, and an error or none.
pub record Reduced (E Menus Others Err : Type 0) : Type 0 where
  pub context : Context
  pub collector : Collector E
  pub menus : Menus
  pub others : Others
  pub failure : Option Err

module _ (P E Menus Others Err : Type 0) where
  abbrev pub Reducer : Type 0
  Reducer = Context → Batch P → Collector E → Menus → Others → Reduced E Menus Others Err

  pub record World : Type 0 where
    pub reducers : List Reducer
    pub revision : ℕ
    pub started : Bool
    pub poisoned : Option Err
    pub local : LocalRef
    pub menus : Menus
    pub others : Others

-- A change of the menus by the client, with an error or none.
abbrev pub Mutate : Type 0 → Type 0 → Type 0 → Type 0
Mutate E Menus Err = Menus → Collector E → Menus × Collector E × Option Err

-- `Snapshot`: the views copy the stores, so they are the stores' values.
pub record Snapshot (Menus Others : Type 0) : Type 0 where
  pub revision : ℕ
  pub menus : Menus
  pub others : Others

module _ {P E Menus Others Err : Type 0} where
  -- `World` as `New` leaves it, with empty stores.
  abbrev pub new_world : Menus → Others → World P E Menus Others Err
  new_world menus others = record {
    reducers = [];
    revision = 0;
    started = false;
    poisoned = none;
    local = record { entity_id = pos 0; known = false };
    menus = menus;
    others = others;
  }

  -- `Register`; `none` is a nil reducer.
  unfoldable pub register :
      World P E Menus Others Err
      → Option (Reducer P E Menus Others Err)
      → World P E Menus Others Err × Option (WorldError Err)
  register w none = (w, some nil_reducer)
  register w (some r) =
      if w.started
      then (w, some world_started)
      else (record w { reducers = w.reducers ++ r ∷ [] }, none)

  -- The loop over the reducers, which the first error ends.
  unfoldable pub reduce_all :
      List (Reducer P E Menus Others Err)
      → Batch P
      → Reduced E Menus Others Err
      → Reduced E Menus Others Err
  reduce_all [] batch so_far = so_far
  reduce_all (r ∷ rs) batch so_far =
      let out = r so_far.context batch so_far.collector so_far.menus so_far.others in
      let rest = reduce_all rs batch out in elim out.failure [ none ↦ rest | some e ↦ out ]

  -- The context, the collector and the stores that the first reducer gets.
  abbrev pub start : World P E Menus Others Err → Batch P → Collector E → Reduced E Menus Others Err
  start w batch c = record {
    context = record { revision = next_revision w.revision; state = batch.state; local = w.local };
    collector = c;
    menus = w.menus;
    others = w.others;
    failure = none;
  }

  -- What `Apply` does to the world once the loop has ended.
  unfoldable pub settle :
      World P E Menus Others Err
      → Reduced E Menus Others Err
      → World P E Menus Others Err × Collector E × ℕ × Option (WorldError Err)
  settle w out = elim out.failure [
    | some e ↦ (
      record w { started = true; menus = out.menus; others = out.others; poisoned = some e },
      out.collector,
      w.revision,
      some (world_poisoned e),
    )
    | none ↦ (
      record w {
        started = true;
        menus = out.menus;
        others = out.others;
        revision = next_revision w.revision;
        local = out.context.local;
      },
      out.collector,
      next_revision w.revision,
      none,
    )
  ]

  -- `Apply`: the world, the collector, the revision that it reports, and its error.
  unfoldable pub apply :
      World P E Menus Others Err
      → Batch P
      → Collector E
      → World P E Menus Others Err × Collector E × ℕ × Option (WorldError Err)
  unfolding reduce_all settle
  apply w batch c = elim w.poisoned [
    | some e ↦ (w, c, w.revision, some (world_poisoned e))
    | none ↦ settle w (reduce_all w.reducers batch (start w batch c))
  ]

  -- `Amend`: the world, and the events or an error. The store keeps what a failed mutation wrote.
  unfoldable pub amend :
      World P E Menus Others Err
      → Mutate E Menus Err
      → World P E Menus Others Err × List (Stamped E) × Option (WorldError Err)
  unfolding events
  amend w mutate = elim w.poisoned [
    | some e ↦ (w, [], some (world_poisoned e))
    | none ↦
        let (menus, c, failure) = mutate w.menus new_collector in
        let written = record w { menus = menus } in
        elim failure [
          | some e ↦ (written, [], some (mutation_failed e))
          | none ↦ (
            record written { revision = next_revision w.revision },
            events c (next_revision w.revision),
            none,
          )
        ]
  ]

  -- `SnapshotErr`; `none` is the zero snapshot of a poisoned world.
  unfoldable pub snapshot :
      World P E Menus Others Err → Option (Snapshot Menus Others) × Option (WorldError Err)
  snapshot w = elim w.poisoned [
    | some e ↦ (none, some (world_poisoned e))
    | none ↦ (some (record { revision = w.revision; menus = w.menus; others = w.others }), none)
  ]
