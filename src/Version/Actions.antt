-- ===== src/Version/Actions.antt =====
-- version/action.go and version/action_*.go: the outbound intents, without reference to a wire format.
-- A constructor of `Action` stands for each Action struct, with the struct's fields in order; the
-- claim of a click is of any type.
use headless_minecraft.Base.{ℕ, String, Bool, Option, ℤ}

pub data DigStage : Type 0 where
  start : DigStage
  cancel : DigStage
  finish : DigStage

pub data Hand : Type 0 where
  main_hand : Hand
  off_hand : Hand

pub data Face : Type 0 where
  bottom : Face
  top : Face
  north : Face
  south : Face
  west : Face
  east : Face

-- The values that both protocols carry.
abbrev pub face_value : Face → ℕ
face_value Face.bottom = 0
face_value Face.top = 1
face_value Face.north = 2
face_value Face.south = 3
face_value Face.west = 4
face_value Face.east = 5

pub record BlockPos : Type 0 where
  pub x : ℤ
  pub y : ℤ
  pub z : ℤ

pub record Cursor (F32 : Type 0) : Type 0 where
  pub x : F32
  pub y : F32
  pub z : F32

pub data InteractKind : Type 0 where
  attack : InteractKind
  use_entity : InteractKind
  use_at : InteractKind

pub data EntityActionKind : Type 0 where
  sneak_start : EntityActionKind
  sneak_stop : EntityActionKind
  leave_bed : EntityActionKind
  sprint_start : EntityActionKind
  sprint_stop : EntityActionKind
  horse_jump_start : EntityActionKind
  horse_jump_stop : EntityActionKind
  open_vehicle_inventory : EntityActionKind
  elytra_fly_start : EntityActionKind

pub data ClickMode : Type 0 where
  pickup : ClickMode
  quick_move : ClickMode
  swap_hotbar : ClickMode
  middle : ClickMode
  drop_mode : ClickMode
  drag : ClickMode
  double_click : ClickMode

pub record Input : Type 0 where
  pub forward : Bool
  pub backward : Bool
  pub left : Bool
  pub right : Bool
  pub jump : Bool
  pub sneak : Bool
  pub sprint : Bool

pub record MoveLook (F32 F64 : Type 0) : Type 0 where
  pub x : F64
  pub y : F64
  pub z : F64
  pub yaw : F32
  pub pitch : F32
  pub on_ground : Bool
  pub horizontal_collision : Bool

pub record UseOn (F32 : Type 0) : Type 0 where
  pub block : BlockPos
  pub face : Face
  pub cursor : Cursor F32
  pub hand : Hand

pub record Interact (F32 : Type 0) : Type 0 where
  pub entity : ℤ
  pub kind : InteractKind
  pub at : Option (Cursor F32)
  pub hand : Hand
  pub sneaking : Bool

pub record ClickSlot (Claim : Type 0) : Type 0 where
  pub window : ℤ
  pub slot : ℤ
  pub button : ℤ
  pub mode : ClickMode
  pub sequence : ℤ
  pub claim : Option Claim

pub data Action (F32 F64 Claim : Type 0) : Type 0 where
  move : F64 → F64 → F64 → Bool → Bool → Action F32 F64 Claim
  look : F32 → F32 → Bool → Bool → Action F32 F64 Claim
  move_look : MoveLook F32 F64 → Action F32 F64 Claim
  ground_only : Bool → Bool → Action F32 F64 Claim
  respawn : Action F32 F64 Claim
  input : Input → Action F32 F64 Claim
  sprint : Bool → Action F32 F64 Claim
  command : String → Action F32 F64 Claim
  dig : BlockPos → Face → DigStage → Action F32 F64 Claim
  held_slot : ℕ → Action F32 F64 Claim
  swing : Hand → Action F32 F64 Claim
  use_item : Hand → Action F32 F64 Claim
  use_on : UseOn F32 → Action F32 F64 Claim
  release_use : Hand → Action F32 F64 Claim
  interact : Interact F32 → Action F32 F64 Claim
  entity_action : EntityActionKind → Action F32 F64 Claim
  swap_hands : Action F32 F64 Claim
  chat : String → Action F32 F64 Claim
  click_slot : ClickSlot Claim → Action F32 F64 Claim
  drop : Bool → Action F32 F64 Claim
  close_window : ℤ → Action F32 F64 Claim

-- `ActionKind`
unfoldable pub action_kind : {F32 F64 Claim : Type 0} → Action F32 F64 Claim → String
action_kind (Action.move _ _ _ _ _) = "move"
action_kind (Action.look _ _ _ _) = "look"
action_kind (Action.move_look _) = "move_look"
action_kind (Action.ground_only _ _) = "ground"
action_kind Action.respawn = "respawn"
action_kind (Action.input _) = "input"
action_kind (Action.sprint _) = "sprint"
action_kind (Action.command _) = "command"
action_kind (Action.dig _ _ _) = "dig"
action_kind (Action.held_slot _) = "held_slot"
action_kind (Action.swing _) = "swing"
action_kind (Action.use_item _) = "use_item"
action_kind (Action.use_on _) = "use_on"
action_kind (Action.release_use _) = "release_use"
action_kind (Action.interact _) = "interact"
action_kind (Action.entity_action _) = "entity_action"
action_kind Action.swap_hands = "swap_hands"
action_kind (Action.chat _) = "chat"
action_kind (Action.click_slot _) = "click_slot"
action_kind (Action.drop _) = "drop"
action_kind (Action.close_window _) = "close_window"
