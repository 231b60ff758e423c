-- ===== src/Event/Damage.antt =====
-- event/damage.go: what a server said of one hit, with a flag for each part that it may leave out.
use headless_minecraft.Base.{ℤ, Bool}

pub record Damage (F64 : Type 0) : Type 0 where
  pub type_id : ℤ
  pub typed : Bool
  pub cause_id : ℤ
  pub attributed : Bool
  pub direct_id : ℤ
  pub direct : Bool
  pub x : F64
  pub y : F64
  pub z : F64
  pub positioned : Bool
