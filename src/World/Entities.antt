-- ===== src/World/Entities.antt =====
-- world/entities.go: what the client knows of each tracked entity. Floats are an interface with a
-- zero and an addition; metadata values and equipment are what the protocol decoded, of any type. A
-- write through the pointer that `track` hands out is a write to the store under the entity's id.
pub mod Moves
pub mod Facts
pub mod Riders
mod Tests
use headless_minecraft.Base.{
  ℕ, ◌+◌, String, Bool, true, false, not, ◌&&◌, Option, none, some, List, [], ◌∷◌, ◌++◌, ℤ, pos,
  negsuc, leb, is_empty, if◌then◌else◌, ◌==◌, int_key, nat_key, string_key, int_leb, map,
}
use headless_minecraft.Base.Map
use headless_minecraft.Base.Map.{Map}
use headless_minecraft.Base.Sort.{sort}
use headless_minecraft.Event.{Collector, emit}
use headless_minecraft.Event.Damage.{Damage}
use headless_minecraft.Event.Entities.{EntityEvent}
use headless_minecraft.World.Floats.{Floats}
use headless_minecraft.World.Player.{Effect}

abbrev pub max_metadata_keys : ℕ
max_metadata_keys = 64

pub record Metadata (Value : Type 0) : Type 0 where
  pub index : ℕ
  pub kind : String
  pub value : Value

pub record Attribute (F64 : Type 0) : Type 0 where
  pub key : String
  pub value : F64

pub record Entity (F32 F64 Value : Type 0) : Type 0 where
  pub id : ℤ
  pub uuid : String
  pub kind : String
  pub x : F64
  pub y : F64
  pub z : F64
  pub yaw : F32
  pub pitch : F32
  pub head_yaw : F32
  pub on_ground : Bool
  pub velocity : ℤ × ℤ × ℤ
  pub dead : Bool
  pub metadata : Map ℕ (Metadata Value)
  pub equipment : Map ℤ Value
  pub attributes : Map String (Attribute F64)
  pub effects : Map ℤ Effect
  pub passengers : List ℤ
  pub vehicle : ℤ
  pub dropped_metadata : ℕ

pub record Entities (F32 F64 Value : Type 0) : Type 0 where
  pub tracked : Map ℤ (Entity F32 F64 Value)

abbrev pub Events : Type 0 → Type 0 → Type 0
Events F32 F64 = Collector (EntityEvent F32 F64)

module _ {F32 F64 Value : Type 0} where
  abbrev pub new_entities : Entities F32 F64 Value
  new_entities = record { tracked = [] }

  abbrev pub put : Entities F32 F64 Value → ℤ → Entity F32 F64 Value → Entities F32 F64 Value
  put s id e = record s { tracked = Map.insert id e s.tracked }

module _ {F32 F64 : Type 0} (floats : Floats F32 F64) {Value : Type 0} where
  abbrev pub new_entity : ℤ → Entity F32 F64 Value
  new_entity id = record {
    id = id;
    uuid = "";
    kind = "";
    x = floats.zero_64;
    y = floats.zero_64;
    z = floats.zero_64;
    yaw = floats.zero_32;
    pitch = floats.zero_32;
    head_yaw = floats.zero_32;
    on_ground = false;
    velocity = (pos 0, pos 0, pos 0);
    dead = false;
    metadata = [];
    equipment = [];
    attributes = [];
    effects = [];
    passengers = [];
    vehicle = pos 0;
    dropped_metadata = 0;
  }

  -- The entity under `id`, created empty if there is none.
  unfoldable pub tracked_at : Entities F32 F64 Value → ℤ → Entity F32 F64 Value
  tracked_at s id = elim (Map.lookup id s.tracked) [ some e ↦ e | none ↦ new_entity id ]

  -- `track` for its effect on the store.
  unfoldable pub track : Entities F32 F64 Value → ℤ → Entities F32 F64 Value
  track s id = elim (Map.lookup id s.tracked) [ some e ↦ s | none ↦ put s id (new_entity id) ]

  -- A write to the fields of the entity that `track` returns.
  unfoldable pub modify :
      Entities F32 F64 Value
      → ℤ
      → (Entity F32 F64 Value → Entity F32 F64 Value)
      → Entities F32 F64 Value
  unfolding tracked_at
  modify s id change = put s id (change (tracked_at s id))
