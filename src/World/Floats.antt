-- ===== src/World/Floats.antt =====
-- The float types of Go, with what world/ does to them.
pub record Floats (F32 F64 : Type 0) : Type 0 where
  pub zero_32 : F32
  pub zero_64 : F64
  pub add_32 : F32 → F32 → F32
  pub add_64 : F64 → F64 → F64
