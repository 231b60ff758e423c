-- ===== src/World/Chunks/Sections.antt =====
-- What a write does to one section of world/chunks.go.
use headless_minecraft.Base.{
  ℕ, suc, zero, ◌<◌, ◌≡◌, refl, Bool, true, false, Option, none, some, List, [], ◌∷◌, ℤ,
  if◌then◌else◌, int_key, get_elem?, set, length, is_some, ltb, nat_beq, arith, nat_key, Bool-cases,
  inl, inr,
}
use headless_minecraft.Base.Map
use headless_minecraft.Base.Map.{
  Map, AllValues, lookup-insert, lookup-insert_same, lookup-insert_apart,
}
use headless_minecraft.World.Chunks.{
  chunk_key, block_key, Section, SectionBlocks, states, failed, blocks, section_block, with_block,
}

-- What a write makes of a block that may be there.
abbrev pub rewritten : Bool → ℕ → Option ℕ → Option ℕ
rewritten here state none = none
rewritten here state (some old) = some (if here then state else old)

pub rewritten_away :
    (here : Bool) (state : ℕ) (o : Option ℕ) → (here ≡ true → o ≡ none) → o ≡ rewritten here state o
rewritten_away here state none h = refl
rewritten_away true state (some old) h = ground (arith, h refl)
rewritten_away false state (some old) h = refl

get_elem?-set :
    (xs : List ℕ) (i j v : ℕ)
    → i < length xs
    → get_elem? (set xs i v) j ≡ rewritten (nat_beq i j) v (get_elem? xs j)
get_elem?-set [] i j v h = absurd (omega arith)
get_elem?-set (x ∷ xs) zero zero v h = ground arith
get_elem?-set (x ∷ xs) zero (suc j) v h =
    rewritten_away (nat_beq 0 (suc j)) v (get_elem? xs j) (λ e. ground arith)
get_elem?-set (x ∷ xs) (suc i) zero v h =
    rewritten_away (nat_beq (suc i) 0) v (some x) (λ e. ground arith)
get_elem?-set (x ∷ xs) (suc i) (suc j) v h = ground (arith, get_elem?-set xs i j v (omega arith))

get_elem?_beyond : (xs : List ℕ) (i : ℕ) → ltb i (length xs) ≡ false → get_elem? xs i ≡ none
get_elem?_beyond [] i h = refl
get_elem?_beyond (x ∷ xs) zero h = ground arith
get_elem?_beyond (x ∷ xs) (suc i) h = get_elem?_beyond xs i (ground arith)

get_elem?_within :
    (xs : List ℕ) (i : ℕ) → ltb i (length xs) ≡ true → is_some (get_elem? xs i) ≡ true
get_elem?_within [] i h = ground arith
get_elem?_within (x ∷ xs) zero h = refl
get_elem?_within (x ∷ xs) (suc i) h = get_elem?_within xs i (ground arith)

module _ {Bytes Err : Type 0} where
  unfoldable pub SectionsAreKeyed : Map ℤ (Section Bytes Err) → Type 0
  SectionsAreKeyed m =
      (k : ℤ) (section : Section Bytes Err) → Map.lookup k m ≡ some section → section.y ≡ k

  pub section_block-with_block :
      (section next : Section Bytes Err) (i j state : ℕ)
      → with_block section i state ≡ some next
      → (next.y ≡ section.y)
        × (section_block next j ≡ rewritten (nat_beq i j) state (section_block section j))
  unfolding with_block section_block blocks
  section_block-with_block section next i j state h = go (blocks section) refl
    where
      go :
          (b : SectionBlocks Bytes Err)
          → blocks section ≡ b
          → (next.y ≡ section.y)
            × (section_block next j ≡ rewritten (nat_beq i j) state (section_block section j))
      go (failed e) q = cc (rw (q, with_block) at h)
      go (states xs) q = elim (Bool-cases (ltb i (length xs))) [
        | inr out ↦ cc (rw (q, with_block, out) at h)
        | inl within ↦
            let same : record section { decode = none; decoded = some (states (set xs i state)) }
                ≡ next =
              ground (arith, rw (q, with_block, within) at h) in
            rw (← same) (refl, rw (q, section_block) (get_elem?-set xs i j state (ground arith)))
      ]

  pub section_block_unwritten :
      (section : Section Bytes Err) (i state : ℕ)
      → with_block section i state ≡ none
      → section_block section i ≡ none
  unfolding with_block section_block blocks
  section_block_unwritten section i state h = go (blocks section) refl
    where
      go : (b : SectionBlocks Bytes Err) → blocks section ≡ b → section_block section i ≡ none
      go (failed e) q = rw (q, section_block) refl
      go (states xs) q = elim (Bool-cases (ltb i (length xs))) [
        | inl within ↦ cc (rw (q, with_block, within) at h)
        | inr out ↦ rw (q, section_block) (get_elem?_beyond xs i out)
      ]

  pub section_block_written :
      (section next : Section Bytes Err) (i state : ℕ)
      → with_block section i state ≡ some next
      → is_some (section_block section i) ≡ true
  unfolding with_block section_block blocks
  section_block_written section next i state h = go (blocks section) refl
    where
      go :
          (b : SectionBlocks Bytes Err)
          → blocks section ≡ b
          → is_some (section_block section i) ≡ true
      go (failed e) q = cc (rw (q, with_block) at h)
      go (states xs) q = elim (Bool-cases (ltb i (length xs))) [
        | inl within ↦ rw (q, section_block) (get_elem?_within xs i within)
        | inr out ↦ cc (rw (q, with_block, out) at h)
      ]
