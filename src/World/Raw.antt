-- ===== src/World/Raw.antt =====
-- world/raw.go: bounded stores of the values that no version models, and the plugin channels. Bytes
-- are immutable values here, so the owned copies of the source need no copying.
pub mod Bounds
use headless_minecraft.Base.{ℕ, ◌+◌, String, Bool, not, ◌&&◌, leb, if◌then◌else◌, string_key, []}
use headless_minecraft.Base.Map
use headless_minecraft.Base.Map.{Map}

pub record Raw (Bytes : Type 0) : Type 0 where
  pub values : Map String Bytes
  pub max : ℕ
  pub dropped : ℕ

abbrev pub max_payload_channels : ℕ
max_payload_channels = 256

module _ {Bytes : Type 0} where
  abbrev pub new_raw : ℕ → Raw Bytes
  new_raw max_keys = record { values = []; max = max_keys; dropped = 0 }

  unfoldable pub store : Raw Bytes → String → Bytes → Raw Bytes
  store r key value =
      if not (Map.contains key r.values) && leb r.max (Map.size r.values)
      then record r { dropped = r.dropped + 1 }
      else record r { values = Map.insert key value r.values }

-- The plugin channels of one connection.
pub record Payloads (Bytes : Type 0) : Type 0 where
  pub raw : Raw Bytes

module _ {Bytes : Type 0} where
  abbrev pub new_payloads : Payloads Bytes
  new_payloads = record { raw = new_raw max_payload_channels }

  unfoldable pub received : Payloads Bytes → String → Bytes → Payloads Bytes
  unfolding store
  received s channel payload = record s { raw = store s.raw channel payload }
