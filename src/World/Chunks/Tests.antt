-- ===== src/World/Chunks/Tests.antt =====
-- Concrete runs of world/chunks.go: a section of two blocks in a column west of the origin.
use headless_minecraft.Base.{arith, ℕ, ◌≡◌, refl, none, some, List, [], ◌∷◌, pos, negsuc}
use headless_minecraft.Base.Map
use headless_minecraft.Event.{new_collector}
use headless_minecraft.World.Chunks.{
  BlockPos, ChunkPos, BlockChange, SectionData, Chunks, states, chunk_coord, mod_16,
}
use headless_minecraft.World.Chunks.Columns.{Events, new_chunks, loaded, block, blocks_changed}
use headless_minecraft.World.Chunks.Writes.{IsKeyed}
use headless_minecraft.World.Chunks.Updates.{updated, block-blocks_changed, loaded-IsKeyed}

abbrev nothing_loaded : Chunks ℕ ℕ ℕ
nothing_loaded = new_chunks

abbrev no_events : Events ℕ ℕ
no_events = new_collector

-- The section from y = -16 to y = -1, whose bytes decode to two blocks of state 9.
abbrev lowest : SectionData ℕ ℕ
lowest = record { y = negsuc 0; raw = 0; decode = some (λ raw. states (9 ∷ 9 ∷ [])) }

abbrev west : ChunkPos
west = record { x = negsuc 0; z = pos 0 }

-- The block at x = -16, y = -16, z = 0 is the first of its section.
abbrev corner : BlockPos
corner = record { x = negsuc 15; y = negsuc 15; z = pos 0 }

abbrev one_column : Chunks ℕ ℕ ℕ
one_column = (loaded nothing_loaded no_events west (lowest ∷ []) none).0

abbrev dug : List BlockChange
dug = record { at = corner; state = 0 } ∷ []

nothing_loaded-IsKeyed : IsKeyed nothing_loaded
unfolding IsKeyed Map.lookup
nothing_loaded-IsKeyed p column found = ground arith

writes_one_block : block (blocks_changed one_column no_events dug).0 corner ≡ some 0
unfolding blocks_changed block loaded Map.lookup Map.insert chunk_coord mod_16
writes_one_block = refl

block-blocks_changed_example :
    IsKeyed (blocks_changed one_column no_events dug).0
    × ((p : BlockPos)
        → block (blocks_changed one_column no_events dug).0 p ≡ updated p dug (block one_column p))
block-blocks_changed_example =
    block-blocks_changed one_column no_events dug
      (loaded-IsKeyed nothing_loaded no_events west (lowest ∷ []) none nothing_loaded-IsKeyed)
