-- ===== src/World/Chunks/Positions.antt =====
-- The coordinates of world/chunks.go: a column, a section and an index name one block.
use headless_minecraft.Base.{◌<◌, ◌≡◌, ap, ℤ, pos, negsuc, arith}
use headless_minecraft.World.Chunks.{
  ChunkPos, BlockPos, chunk_coord, mod_16, section_index, chunk_of, index_of,
}

pub mod_16-lt : (v : ℤ) → mod_16 v < 16
unfolding mod_16
mod_16-lt (pos n) = omega arith
mod_16-lt (negsuc n) = omega arith

split_16 : (a b : ℤ) → chunk_coord a ≡ chunk_coord b → mod_16 a ≡ mod_16 b → a ≡ b
unfolding mod_16 chunk_coord
split_16 (pos m) (pos n) p q = ap pos (ground arith)
split_16 (pos m) (negsuc n) p q = ground arith
split_16 (negsuc m) (pos n) p q = ground arith
split_16 (negsuc m) (negsuc n) p q = ap negsuc (ground arith)

mods_of_index :
    (a b : BlockPos)
    → index_of a ≡ index_of b
    → (mod_16 a.x ≡ mod_16 b.x) × (mod_16 a.y ≡ mod_16 b.y) × (mod_16 a.z ≡ mod_16 b.z)
mods_of_index a b index = omega (
  arith,
  index,
  mod_16-lt a.x,
  mod_16-lt b.x,
  mod_16-lt a.y,
  mod_16-lt b.y,
  mod_16-lt a.z,
  mod_16-lt b.z,
)

pub same_block :
    (a b : BlockPos)
    → chunk_of a ≡ chunk_of b
    → section_index a.y ≡ section_index b.y
    → index_of a ≡ index_of b
    → a ≡ b
same_block a b column section index =
    let (mod_x, mod_y, mod_z) = mods_of_index a b index in
    let x = split_16 a.x b.x (ap (λ (c : ChunkPos). c.x) column) mod_x in
    let y = split_16 a.y b.y section mod_y in
    let z = split_16 a.z b.z (ap (λ (c : ChunkPos). c.z) column) mod_z in cc
