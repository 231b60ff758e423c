-- ===== src/World/Chunks.antt =====
-- world/chunks.go: the loaded columns, their sections and block writes. A section's decoder belongs
-- to the version and is a value here, as the received bytes, the light and the block entities are.
-- The cached decoding of a section is shared and only ever set, so it is a field. `v >> 4` and
-- `v & 15` round towards negative infinity. Coordinates within a section lie in 0..15, so the index
-- of a block cannot be negative.
pub mod Columns
pub mod Positions
pub mod Sections
pub mod Writes
pub mod Updates
mod Tests
use headless_minecraft.Base.{
  ℕ, ◌+◌, ◌-◌, ◌*◌, ◌/◌, ◌%◌, ◌≡◌, ◌↔◌, Bool, true, false, not, ◌&&◌, Option, none, some, List, [],
  ◌∷◌, ◌++◌, ℤ, pos, negsuc, ltb, length, is_empty, get_elem?, set, map, if◌then◌else◌, ◌==◌,
  int_beq, int_beq_iff, int_key, Key, arith,
}
use headless_minecraft.Base.Map
use headless_minecraft.Base.Map.{Map}
use headless_minecraft.Event.{Collector, emit}
use headless_minecraft.Event.World.{WorldEvent, BlockPosition}

pub record ChunkPos : Type 0 where
  pub x : ℤ
  pub z : ℤ

pub record BlockPos : Type 0 where
  pub x : ℤ
  pub y : ℤ
  pub z : ℤ

abbrev pub chunk_same : ChunkPos → ChunkPos → Bool
chunk_same a b = a.x == b.x && a.z == b.z

pub chunk_same_iff : (a b : ChunkPos) → (chunk_same a b ≡ true) ↔ (a ≡ b)
chunk_same_iff a b = ground (arith, int_beq_iff a.x b.x, int_beq_iff a.z b.z)

abbrev pub block_same : BlockPos → BlockPos → Bool
block_same a b = a.x == b.x && a.y == b.y && a.z == b.z

pub block_same_iff : (a b : BlockPos) → (block_same a b ≡ true) ↔ (a ≡ b)
block_same_iff a b = ground (arith, int_beq_iff a.x b.x, int_beq_iff a.y b.y, int_beq_iff a.z b.z)

instance abbrev pub chunk_key : Key ChunkPos
chunk_key = record { same = chunk_same; same_iff = chunk_same_iff }

instance abbrev pub block_key : Key BlockPos
block_key = record { same = block_same; same_iff = block_same_iff }

unfoldable pub chunk_coord : ℤ → ℤ
chunk_coord (pos n) = pos (n / 16)
chunk_coord (negsuc n) = negsuc (n / 16)

unfoldable pub mod_16 : ℤ → ℕ
mod_16 (pos n) = n % 16
mod_16 (negsuc n) = 15 - n % 16

abbrev pub section_index : ℤ → ℤ
section_index y = chunk_coord y

abbrev pub chunk_of : BlockPos → ChunkPos
chunk_of p = record { x = chunk_coord p.x; z = chunk_coord p.z }

-- `y*256 + z*16 + x` within the section.
abbrev pub index_of : BlockPos → ℕ
index_of p = mod_16 p.y * 256 + mod_16 p.z * 16 + mod_16 p.x

pub record BlockChange : Type 0 where
  pub at : BlockPos
  pub state : ℕ

module _ (Bytes Err : Type 0) where
  -- `ErrSectionNotDecodable` or the decoder's own error.
  pub data SectionError : Type 0 where
    not_decodable : SectionError
    undecoded : Err → SectionError

  pub data SectionBlocks : Type 0 where
    states : List ℕ → SectionBlocks
    failed : SectionError → SectionBlocks

  pub record Section : Type 0 where
    pub y : ℤ
    pub raw : Bytes
    pub decode : Option (Bytes → SectionBlocks)
    pub decoded : Option SectionBlocks

  pub record SectionData : Type 0 where
    pub y : ℤ
    pub raw : Bytes
    pub decode : Option (Bytes → SectionBlocks)

  pub record Chunk (Value : Type 0) : Type 0 where
    pub at : ChunkPos
    pub sections : Map ℤ Section
    pub entities : Map BlockPos Value
    pub light : Option Bytes

  pub record Chunks (Value : Type 0) : Type 0 where
    pub loaded : Map ChunkPos (Chunk Value)

module _ {Bytes Err : Type 0} where
  -- The cached decoding, or the one that the first use computes and caches.
  unfoldable pub blocks : Section Bytes Err → SectionBlocks Bytes Err
  blocks s = elim s.decoded [
    | some cached ↦ cached
    | none ↦ elim s.decode [ none ↦ failed not_decodable | some decode ↦ decode s.raw ]
  ]

  abbrev pub cache : Section Bytes Err → Section Bytes Err
  cache s = record s { decoded = some (blocks s) }

  -- `Section.Block` at an index.
  unfoldable pub section_block : Section Bytes Err → ℕ → Option ℕ
  unfolding blocks
  section_block s index = elim (blocks s) [ states xs ↦ get_elem? xs index | failed e ↦ none ]

  unfoldable pub with_block : Section Bytes Err → ℕ → ℕ → Option (Section Bytes Err)
  unfolding blocks
  with_block s index state = elim (blocks s) [
    | failed e ↦ none
    | states xs ↦
        if ltb index (length xs)
        then some (record s { decode = none; decoded = some (states (set xs index state)) })
        else none
  ]
