-- ===== src/Version/Packet.antt =====
-- A decoded packet of the module minecraft-protocol, which this repository imports: its type and the
-- fields that the client reads are a parameter of the model.
use headless_minecraft.Base.{String, ℤ}

pub record Packet (P : Type 0) : Type 0 where
  pub name : P → String
  pub state : P → String
  pub id : P → ℤ
