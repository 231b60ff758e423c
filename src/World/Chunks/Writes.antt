-- ===== src/World/Chunks/Writes.antt =====
-- A block write of world/chunks.go changes the block at its position and no other.
use headless_minecraft.Base.{
  ◌≡◌, refl, sym, ap, ◌∙◌, Bool, true, false, none, some, int_key, is_some, nat_beq, nat_beq_iff,
  ◌==◌, ==_iff, ==_apart, nat_key, Option-cases, Bool-cases, inl, inr,
}
use headless_minecraft.Base.Map
use headless_minecraft.Base.Map.{
  Map, AllValues, lookup-insert, lookup-insert_same, lookup-insert_apart,
}
use headless_minecraft.World.Chunks.{
  ChunkPos, BlockPos, chunk_key, block_key, chunk_of, section_index, index_of, BlockChange, Section,
  Chunk, Chunks, section_block, with_block,
}
use headless_minecraft.World.Chunks.Sections.{
  rewritten, rewritten_away, SectionsAreKeyed, section_block-with_block, section_block_written,
  section_block_unwritten,
}
use headless_minecraft.World.Chunks.Positions.{same_block}
use headless_minecraft.World.Chunks.Columns.{block, block_in, apply, put}

module _ {Bytes Err Value : Type 0} where
  -- Every section of every column stands under its own number.
  unfoldable pub IsKeyed : Chunks Bytes Err Value → Type 0
  IsKeyed s =
      (p : ChunkPos) (column : Chunk Bytes Err Value)
      → Map.lookup p s.loaded ≡ some column
      → SectionsAreKeyed column.sections

  -- What one change does: nothing where its block cannot be read, and else only its own block.
  abbrev pub IsWrittenBy :
      BlockChange → Chunks Bytes Err Value → Chunks Bytes Err Value × Bool → Type 0
  IsWrittenBy change s t =
      (t.1 ≡ is_some (block s change.at))
      × ((p : BlockPos) → block t.0 p ≡ rewritten (change.at == p) change.state (block s p))

  unwritten :
      (s : Chunks Bytes Err Value) (change : BlockChange)
      → block s change.at ≡ none
      → IsWrittenBy change s (s, false)
  unwritten s change h = (
    rw h refl,
    λ p.
        rewritten_away (change.at == p) change.state (block s p)
          (λ e. ap (block s) (sym ((==_iff change.at p).0 e)) ∙ h),
  )

  block_found :
      (s : Chunks Bytes Err Value) (p : BlockPos) (column : Chunk Bytes Err Value)
      (section : Section Bytes Err)
      → Map.lookup (chunk_of p) s.loaded ≡ some column
      → Map.lookup (section_index p.y) column.sections ≡ some section
      → block s p ≡ section_block section (index_of p)
  unfolding block block_in
  block_found s p column section e f = rw (e, block) (rw (f, block_in) refl)

  written :
      (s : Chunks Bytes Err Value) (change : BlockChange) (column : Chunk Bytes Err Value)
      (section next : Section Bytes Err)
      → Map.lookup (chunk_of change.at) s.loaded ≡ some column
      → Map.lookup (section_index change.at.y) column.sections ≡ some section
      → section.y ≡ section_index change.at.y
      → with_block section (index_of change.at) change.state ≡ some next
      → IsWrittenBy change s (
        put s
            (chunk_of change.at)
            (record column { sections = Map.insert section.y next column.sections }),
        true,
      )
  unfolding put block block_in
  written s change column section next e f k w = (
    sym (
        rw (block_found s change.at column section e f)
          (section_block_written section next (index_of change.at) change.state w)),
    λ p. at_block p,
  )
    where
      filled : Chunk Bytes Err Value
      filled = record column { sections = Map.insert section.y next column.sections }

      t : Chunks Bytes Err Value
      t = put s (chunk_of change.at) filled

      elsewhere :
          (p : BlockPos)
          → block t p ≡ block s p
          → (change.at ≡ p → ⊥)
          → block t p ≡ rewritten (change.at == p) change.state (block s p)
      elsewhere p same apart =
          same
          ∙ rewritten_away (change.at == p) change.state (block s p)
              (λ m. absurd (apart ((==_iff change.at p).0 m)))

      in_section :
          (p : BlockPos)
          → chunk_of change.at ≡ chunk_of p
          → section_index change.at.y ≡ section_index p.y
          → block t p ≡ rewritten (change.at == p) change.state (block s p)
      in_section p c r =
          let before = block_found s p column section (rw (← c) e) (rw (← r) f) in
          let after =
            block_found t p filled next
              (lookup-insert_same (chunk_of change.at) (chunk_of p) filled s.loaded c)
              (lookup-insert_same section.y (section_index p.y) next column.sections (k ∙ r)) in
          let step =
            (section_block-with_block section next (index_of change.at) (index_of p) change.state
              w).1 in
          let test : nat_beq (index_of change.at) (index_of p) ≡ (change.at == p) =
            elim (Bool-cases (nat_beq (index_of change.at) (index_of p))) [
              | inl h ↦
                  h
                  ∙ sym (
                      (==_iff change.at p).1 (
                        same_block change.at p c r
                          ((nat_beq_iff (index_of change.at) (index_of p)).0 h)))
              | inr h ↦ elim (Bool-cases (change.at == p)) [
                | inr m ↦ h ∙ sym m
                | inl m ↦ absurd (
                    ==_apart (index_of change.at) (index_of p) h
                      (ap index_of ((==_iff change.at p).0 m)))
              ]
            ] in
          after
          ∙ step
          ∙ ap (λ b. rewritten b change.state (section_block section (index_of p))) test
          ∙ ap (rewritten (change.at == p) change.state) (sym before)

      in_column :
          (p : BlockPos)
          → chunk_of change.at ≡ chunk_of p
          → (section.y == section_index p.y) ≡ false
          → block t p ≡ block s p
      in_column p c apart =
          let there : Map.lookup (chunk_of p) s.loaded ≡ some column = rw (← c) e in
          rw (block, lookup-insert_same (chunk_of change.at) (chunk_of p) filled s.loaded c)
            (rw
              (
                block_in,
                lookup-insert_apart section.y (section_index p.y) next column.sections apart,
              )
              (rw (there, block) refl))

      at_block : (p : BlockPos) → block t p ≡ rewritten (change.at == p) change.state (block s p)
      at_block p = elim (Bool-cases (chunk_of change.at == chunk_of p)) [
        | inr apart ↦
            elsewhere p
              (rw
                (block, lookup-insert_apart (chunk_of change.at) (chunk_of p) filled s.loaded apart)
                refl)
              (λ m. ==_apart (chunk_of change.at) (chunk_of p) apart (ap chunk_of m))
        | inl c ↦ elim (Bool-cases (section_index change.at.y == section_index p.y)) [
          | inr apart ↦
              elsewhere p
                (in_column p ((==_iff (chunk_of change.at) (chunk_of p)).0 c) (rw k apart))
                (λ m.
                  ==_apart (section_index change.at.y) (section_index p.y) apart
                    (ap (λ (q : BlockPos). section_index q.y) m))
          | inl r ↦
              in_section p ((==_iff (chunk_of change.at) (chunk_of p)).0 c)
                ((==_iff (section_index change.at.y) (section_index p.y)).0 r)
        ]
      ]

  -- Whether a change takes effect, and what it does to every block of the store.
  pub apply-IsWrittenBy :
      (s : Chunks Bytes Err Value) (change : BlockChange)
      → IsKeyed s
      → IsWrittenBy change s (apply s change)
  unfolding apply block IsKeyed SectionsAreKeyed
  apply-IsWrittenBy s change keyed =
      elim (Option-cases (Map.lookup (chunk_of change.at) s.loaded)) [
        | inl e ↦ rw (e, apply) (unwritten s change (rw (e, block) refl))
        | inr (column, e) ↦
            elim (Option-cases (Map.lookup (section_index change.at.y) column.sections)) [
              | inl f ↦ rw (e, apply, f) (unwritten s change (rw (e, block, f, block_in) refl))
              | inr (section, f) ↦
                  elim (Option-cases (with_block section (index_of change.at) change.state)) [
                    | inl w ↦
                        rw (e, apply, f, w)
                          (unwritten s change (
                            block_found s change.at column section e f
                            ∙ section_block_unwritten section (index_of change.at) change.state w))
                    | inr (next, w) ↦
                        rw (e, apply, f, w)
                          (written s change column section next e f
                            (keyed (chunk_of change.at) column e (section_index change.at.y) section
                              f)
                            w)
                  ]
            ]
      ]
