-- ===== src/World/Chunks/Updates.antt =====
-- A packet of block changes of world/chunks.go, as a whole.
use headless_minecraft.Base.{
  ℕ, ◌≡◌, refl, sym, ap, ◌∙◌, Option, none, some, List, [], ◌∷◌, ℤ, if◌then◌else◌, int_key, arith,
  ◌==◌, ==_iff, nat_key, Option-cases, Bool-cases, inl, inr,
}
use headless_minecraft.Base.Map
use headless_minecraft.Base.Map.{
  Map, AllValues, lookup-insert, lookup-insert_same, lookup-insert_apart,
}
use headless_minecraft.World.Chunks.{
  ChunkPos, BlockPos, chunk_key, block_key, chunk_of, section_index, index_of, BlockChange, Section,
  SectionData, Chunk, Chunks, with_block,
}
use headless_minecraft.World.Chunks.Columns.{
  Events, block, apply, Applied, apply_step, apply_all, blocks_changed, put, loaded, store_sections,
  received_section, column_at, with_light,
}
use headless_minecraft.World.Chunks.Sections.{rewritten, SectionsAreKeyed, section_block-with_block}
use headless_minecraft.World.Chunks.Writes.{IsKeyed, apply-IsWrittenBy}

-- The last state that the changes give a position, or the one it had.
abbrev pub last_at : BlockPos → ℕ → List BlockChange → ℕ
last_at p old [] = old
last_at p old (change ∷ rest) = last_at p (if change.at == p then change.state else old) rest

abbrev pub updated : BlockPos → List BlockChange → Option ℕ → Option ℕ
updated p changes none = none
updated p changes (some old) = some (last_at p old changes)

updated-rewritten :
    (p : BlockPos) (change : BlockChange) (rest : List BlockChange) (o : Option ℕ)
    → updated p rest (rewritten (change.at == p) change.state o) ≡ updated p (change ∷ rest) o
updated-rewritten p change rest none = refl
updated-rewritten p change rest (some old) = refl

updated_nothing : (p : BlockPos) (o : Option ℕ) → o ≡ updated p [] o
updated_nothing p none = refl
updated_nothing p (some old) = refl

module _ {Bytes Err : Type 0} where
  insert-SectionsAreKeyed :
      (m : Map ℤ (Section Bytes Err)) (k : ℤ) (section : Section Bytes Err)
      → SectionsAreKeyed m
      → section.y ≡ k
      → SectionsAreKeyed (Map.insert k section m)
  unfolding SectionsAreKeyed
  insert-SectionsAreKeyed m k section keyed y j q h = elim (Bool-cases (k == j)) [
    | inr apart ↦ keyed j q (sym (lookup-insert_apart k j section m apart) ∙ h)
    | inl here ↦
        let at_j = (==_iff k j).0 here in
        let same : section ≡ q = ground (arith, lookup-insert_same k j section m at_j, h) in
        sym (ap (λ (x : Section Bytes Err). x.y) same) ∙ y ∙ at_j
  ]

  store_sections-SectionsAreKeyed :
      (m : Map ℤ (Section Bytes Err)) (sections : List (SectionData Bytes Err))
      → SectionsAreKeyed m
      → SectionsAreKeyed (store_sections m sections)
  unfolding store_sections
  store_sections-SectionsAreKeyed m [] keyed = keyed
  store_sections-SectionsAreKeyed m (d ∷ rest) keyed =
      store_sections-SectionsAreKeyed (Map.insert d.y (received_section d) m) rest
        (insert-SectionsAreKeyed m d.y (received_section d) keyed refl)

module _ {Bytes Err Value : Type 0} where
  put-IsKeyed :
      (s : Chunks Bytes Err Value) (p : ChunkPos) (column : Chunk Bytes Err Value)
      → IsKeyed s
      → SectionsAreKeyed column.sections
      → IsKeyed (put s p column)
  unfolding put IsKeyed
  put-IsKeyed s p column keyed v other f found = elim (Bool-cases (p == other)) [
    | inr apart ↦ keyed other f (sym (lookup-insert_apart p other column s.loaded apart) ∙ found)
    | inl here ↦
        let same : column ≡ f =
          ground
            (arith, lookup-insert_same p other column s.loaded ((==_iff p other).0 here), found) in
        rw (← same) v
  ]

  apply-IsKeyed :
      (s : Chunks Bytes Err Value) (change : BlockChange) → IsKeyed s → IsKeyed (apply s change).0
  unfolding apply
  apply-IsKeyed s change keyed = elim (Option-cases (Map.lookup (chunk_of change.at) s.loaded)) [
    | inl e ↦ rw (e, apply) keyed
    | inr (column, e) ↦
        elim (Option-cases (Map.lookup (section_index change.at.y) column.sections)) [
          | inl f ↦ rw (e, apply, f) keyed
          | inr (section, f) ↦
              elim (Option-cases (with_block section (index_of change.at) change.state)) [
                | inl w ↦ rw (e, apply, f, w) keyed
                | inr (next, w) ↦
                    rw (e, apply, f, w)
                      (put-IsKeyed s (chunk_of change.at)
                        (record column { sections = Map.insert section.y next column.sections })
                        keyed
                        (insert-SectionsAreKeyed column.sections section.y next
                          (unfold IsKeyed in keyed (chunk_of change.at) column e)
                          (section_block-with_block section next (index_of change.at) 0 change.state
                            w).0))
              ]
        ]
  ]

  store-apply_step :
      (a : Applied Bytes Err Value) (change : BlockChange)
      → (apply_step a change).store ≡ (apply a.store change).0
  unfolding apply_step
  store-apply_step a change = ground arith

  store-apply_all :
      (a : Applied Bytes Err Value) (changes : List BlockChange)
      → IsKeyed a.store
      → IsKeyed (apply_all a changes).store
        × ((p : BlockPos)
            → block (apply_all a changes).store p ≡ updated p changes (block a.store p))
  unfolding apply_all
  store-apply_all a [] keyed = (keyed, λ p. updated_nothing p (block a.store p))
  store-apply_all a (change ∷ rest) keyed =
      let one = store-apply_step a change in
      let (kept, each) =
        store-apply_all (apply_step a change) rest (rw one (apply-IsKeyed a.store change keyed)) in
      (
        kept,
        λ p.
            each p
            ∙ ap (updated p rest)
                (ap (λ s. block s p) one ∙ (apply-IsWrittenBy a.store change keyed).1 p)
            ∙ updated-rewritten p change rest (block a.store p),
      )

  -- A packet of changes leaves every block that could be read with the state of the last change at
  -- its position, and with its own state if there is none; a block that could not be read, for want
  -- of a column, a section or a decoding, still cannot. The store stays keyed.
  pub block-blocks_changed :
      {F32 F64 : Type 0} (s : Chunks Bytes Err Value) (c : Events F32 F64)
      (changes : List BlockChange)
      → IsKeyed s
      → IsKeyed (blocks_changed s c changes).0
        × ((p : BlockPos) → block (blocks_changed s c changes).0 p ≡ updated p changes (block s p))
  unfolding blocks_changed
  block-blocks_changed s c [] keyed = (keyed, λ p. updated_nothing p (block s p))
  block-blocks_changed s c (change ∷ rest) keyed =
      store-apply_all (record { store = s; applied = []; dropped = 0 }) (change ∷ rest) keyed

  column_at-SectionsAreKeyed :
      (s : Chunks Bytes Err Value) (p : ChunkPos)
      → IsKeyed s
      → SectionsAreKeyed (column_at s p).sections
  unfolding IsKeyed SectionsAreKeyed Map.lookup
  column_at-SectionsAreKeyed s p keyed = elim (Option-cases (Map.lookup p s.loaded)) [
    | inl e ↦ rw (e, column_at) (λ k q h. ground arith)
    | inr (column, e) ↦ rw (e, column_at) (keyed p column e)
  ]

  -- Receiving a column keeps every section under its own number, whatever was there before.
  pub loaded-IsKeyed :
      {F32 F64 : Type 0} (s : Chunks Bytes Err Value) (c : Events F32 F64) (p : ChunkPos)
      (sections : List (SectionData Bytes Err)) (light : Option Bytes)
      → IsKeyed s
      → IsKeyed (loaded s c p sections light).0
  unfolding loaded
  loaded-IsKeyed s c p sections light keyed =
      let filled = store_sections (column_at s p).sections sections in
      put-IsKeyed s p (with_light light (record (column_at s p) { sections = filled })) keyed (
        lit light filled (
          store_sections-SectionsAreKeyed (column_at s p).sections sections
            (column_at-SectionsAreKeyed s p keyed)))
    where
      lit :
          (l : Option Bytes) (m : Map ℤ (Section Bytes Err))
          → SectionsAreKeyed m
          → SectionsAreKeyed (with_light l (record (column_at s p) { sections = m })).sections
      lit none m v = v
      lit (some b) m v = v
