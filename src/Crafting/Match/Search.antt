-- ===== src/Crafting/Match/Search.antt =====
-- The walk of `Match` over the registry, in the order of the item ids.
use mathlib.Core.List.{Memᴰ}
use mathlib.Core.List.Memᴰ
use mathlib.Core.List.Perm
use headless_minecraft.Base.{List, int_key}
use headless_minecraft.Base.Map
use headless_minecraft.Base.Map.{Map}
use headless_minecraft.Crafting.Grid
use headless_minecraft.Crafting.Grid.{Grid}
