-- ===== src/World/Chunks/Columns.antt =====
-- world/chunks.go: what the store of columns does with each packet, and how a block is read.
use headless_minecraft.Base.{
  ℕ, ◌+◌, Bool, true, false, Option, none, some, List, [], ◌∷◌, ◌++◌, ℤ, is_empty, map,
  if◌then◌else◌, int_key,
}
use headless_minecraft.Base.Map
use headless_minecraft.Base.Map.{Map}
use headless_minecraft.Event.{Collector, emit}
use headless_minecraft.Event.World.{WorldEvent, BlockPosition}
use headless_minecraft.World.Chunks.{
  ChunkPos, BlockPos, chunk_key, block_key, chunk_of, section_index, index_of, BlockChange, Section,
  SectionData, Chunk, Chunks, section_block, with_block,
}

abbrev pub Events : Type 0 → Type 0 → Type 0
Events F32 F64 = Collector (WorldEvent F32 F64)

abbrev position : BlockPos → BlockPosition
position p = record { x = p.x; y = p.y; z = p.z }

-- What the loop over the changes of a packet has so far.
pub record Applied (Bytes Err Value : Type 0) : Type 0 where
  pub store : Chunks Bytes Err Value
  pub applied : List BlockChange
  pub dropped : ℕ

module _ {Bytes Err : Type 0} where
  abbrev pub received_section : SectionData Bytes Err → Section Bytes Err
  received_section d = record { y = d.y; raw = d.raw; decode = d.decode; decoded = none }

  unfoldable pub store_sections :
      Map ℤ (Section Bytes Err) → List (SectionData Bytes Err) → Map ℤ (Section Bytes Err)
  store_sections sections [] = sections
  store_sections sections (d ∷ rest) =
      store_sections (Map.insert d.y (received_section d) sections) rest

module _ {Bytes Err Value : Type 0} where
  -- `ChunkView.Block` and `ChunksView.Block`: a view shares the sections of the store.
  unfoldable pub block_in : Chunk Bytes Err Value → BlockPos → Option ℕ
  unfolding section_block
  block_in column p = elim (Map.lookup (section_index p.y) column.sections) [
    | none ↦ none
    | some section ↦ section_block section (index_of p)
  ]

  unfoldable pub block : Chunks Bytes Err Value → BlockPos → Option ℕ
  unfolding block_in
  block s p = elim (Map.lookup (chunk_of p) s.loaded) [
    | none ↦ none
    | some column ↦ block_in column p
  ]

  abbrev pub new_chunks : Chunks Bytes Err Value
  new_chunks = record { loaded = [] }

  unfoldable pub put :
      Chunks Bytes Err Value → ChunkPos → Chunk Bytes Err Value → Chunks Bytes Err Value
  put s p column = record s { loaded = Map.insert p column s.loaded }

  abbrev pub column_at : Chunks Bytes Err Value → ChunkPos → Chunk Bytes Err Value
  column_at s p = elim (Map.lookup p s.loaded) [
    | some column ↦ column
    | none ↦ record { at = p; sections = []; entities = []; light = none }
  ]

  abbrev pub with_light : Option Bytes → Chunk Bytes Err Value → Chunk Bytes Err Value
  with_light none column = column
  with_light (some light) column = record column { light = some light }

  -- `apply`: the store, and whether the change took effect.
  unfoldable pub apply : Chunks Bytes Err Value → BlockChange → Chunks Bytes Err Value × Bool
  unfolding with_block put
  apply s change = elim (Map.lookup (chunk_of change.at) s.loaded) [
    | none ↦ (s, false)
    | some column ↦ elim (Map.lookup (section_index change.at.y) column.sections) [
      | none ↦ (s, false)
      | some section ↦ elim (with_block section (index_of change.at) change.state) [
        | none ↦ (s, false)
        | some next ↦ (
          put s (chunk_of change.at)
              (record column { sections = Map.insert section.y next column.sections }),
          true,
        )
      ]
    ]
  ]

  -- One turn of the loop over the changes.
  unfoldable pub apply_step : Applied Bytes Err Value → BlockChange → Applied Bytes Err Value
  unfolding apply
  apply_step a change =
      let (t, took) = apply a.store change in
      if took
      then record a { store = t; applied = a.applied ++ change ∷ [] }
      else record a { store = t; dropped = a.dropped + 1 }

  unfoldable pub apply_all : Applied Bytes Err Value → List BlockChange → Applied Bytes Err Value
  unfolding apply_step
  apply_all a [] = a
  apply_all a (change ∷ rest) = apply_all (apply_step a change) rest

  module _ {F32 F64 : Type 0} where
    unfoldable pub loaded :
        Chunks Bytes Err Value
        → Events F32 F64
        → ChunkPos
        → List (SectionData Bytes Err)
        → Option Bytes
        → Chunks Bytes Err Value × Events F32 F64
    unfolding store_sections put emit
    loaded s c p sections light =
        let column = column_at s p in
        let filled = record column { sections = store_sections column.sections sections } in
        (
          put s p (with_light light filled),
          emit c (
              WorldEvent.chunk_loaded
                (record { x = p.x; z = p.z; sections = Map.size filled.sections })),
        )

    unfoldable pub unloaded :
        Chunks Bytes Err Value → Events F32 F64 → ChunkPos → Chunks Bytes Err Value × Events F32 F64
    unfolding emit
    unloaded s c p =
        if Map.contains p s.loaded
        then (
          record s { loaded = Map.delete p s.loaded },
          emit c (WorldEvent.chunk_unloaded (record { x = p.x; z = p.z })),
        )
        else (s, c)

    unfoldable pub light_changed :
        Chunks Bytes Err Value
        → Events F32 F64
        → ChunkPos
        → Option Bytes
        → Chunks Bytes Err Value × Events F32 F64
    unfolding put emit
    light_changed s c p light = (
      elim (Map.lookup p s.loaded) [
        | none ↦ s
        | some column ↦ put s p (record column { light = light })
      ],
      emit c (WorldEvent.light_changed (record { x = p.x; z = p.z })),
    )

    unfoldable pub blocks_changed :
        Chunks Bytes Err Value
        → Events F32 F64
        → List BlockChange
        → Chunks Bytes Err Value × Events F32 F64
    unfolding apply_all emit
    blocks_changed s c changes =
        if is_empty changes
        then (s, c)
        else (let a = apply_all (record { store = s; applied = []; dropped = 0 }) changes in
            (
              a.store,
              emit c (
                  WorldEvent.blocks_changed (record {
                    positions = map (λ (b : BlockChange). position b.at) a.applied;
                    states = map (λ (b : BlockChange). b.state) a.applied;
                    dropped = a.dropped;
                  })),
            ))

    unfoldable pub block_entity_changed :
        Chunks Bytes Err Value
        → Events F32 F64
        → BlockPos
        → Value
        → Chunks Bytes Err Value × Events F32 F64
    unfolding put emit
    block_entity_changed s c p value = (
      elim (Map.lookup (chunk_of p) s.loaded) [
        | none ↦ s
        | some column ↦
            put s (chunk_of p) (record column { entities = Map.insert p value column.entities })
      ],
      emit c (WorldEvent.block_entity_changed (record { x = p.x; y = p.y; z = p.z })),
    )
