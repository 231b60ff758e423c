-- ===== src/Version/Batch/Bundles.antt =====
-- Bundles of version/batch.go from the delimiter that opens one to the delimiter that closes it.
use mathlib.Core.List.{append_assoc, append-nil}
use headless_minecraft.Base.{
  ◌+◌, ◌≤◌, ◌<◌, ◌≡◌, refl, sym, ◌∙◌, ap, String, true, false, none, some, List, [], ◌∷◌, ◌++◌, leb,
  ◌==◌, string_key, length, length-append, arith, All,
}
use headless_minecraft.Version.Packet.{Packet}
use headless_minecraft.Version.Batch.{
  Batcher, incomplete, complete, too_large, at_delimiter, at_packet, accept, after_one, accept_all,
}
use headless_minecraft.Version.Batch.Laws.{accept_delimiter, accept_packet}

module _ {P : Type 0} (packet : Packet P) where
  abbrev pub NoDelimiter : String → List P → Type 0
  NoDelimiter delimiter ps = All (λ (p : P). (packet.name p == delimiter) ≡ false) ps

  accept_room :
      (b : Batcher P) (p : P)
      → b.is_open ≡ true
      → (b.delimiter == "") ≡ false
      → (packet.name p == b.delimiter) ≡ false
      → length b.pending < b.limit
      → accept packet b p ≡ (record b { pending = b.pending ++ p ∷ [] }, incomplete)
  unfolding at_packet
  accept_room b p o e d room =
      accept_packet packet b p e d
      ∙ (let fits : leb b.limit (length b.pending) ≡ false = ground arith in simp (o, fits))

  accept_full :
      (b : Batcher P) (p : P)
      → b.is_open ≡ true
      → (b.delimiter == "") ≡ false
      → (packet.name p == b.delimiter) ≡ false
      → b.limit ≤ length b.pending
      → accept packet b p ≡ (b, too_large b.limit)
  unfolding at_packet
  accept_full b p o e d full =
      accept_packet packet b p e d
      ∙ (let over : leb b.limit (length b.pending) ≡ true = ground arith in simp (o, over))

  -- An open batcher takes packets that are no delimiters, as far as its limit allows.
  accept_all_open :
      (b : Batcher P) (ps rest : List P)
      → b.is_open ≡ true
      → (b.delimiter == "") ≡ false
      → NoDelimiter b.delimiter ps
      → length b.pending + length ps ≤ b.limit
      → accept_all packet b (ps ++ rest)
        ≡ accept_all packet (record b { pending = b.pending ++ ps }) rest
  unfolding accept_all after_one
  accept_all_open b [] rest o e n room =
      ap (λ (q : List P). accept_all packet (record b { pending = q }) rest)
        (sym (append-nil b.pending))
  accept_all_open b (p ∷ ps) rest o e n room = rw (accept_room b p o e n.0 (omega arith)) (
      accept_all_open (record b { pending = b.pending ++ p ∷ [] }) ps rest o e n.1
        (omega (arith, length-append b.pending (p ∷ [])))
      ∙ ap (λ (q : List P). accept_all packet (record b { pending = q }) rest)
          (append_assoc b.pending (p ∷ []) ps))

  -- The batcher while a bundle is open that the packet `d` opened.
  abbrev pub opened_by : Batcher P → P → Batcher P
  opened_by b d = record b { is_open = true; state = packet.state d }

  accept_opening :
      (b : Batcher P) (d : P)
      → b.is_open ≡ false
      → (b.delimiter == "") ≡ false
      → (packet.name d == b.delimiter) ≡ true
      → accept packet b d ≡ (opened_by b d, incomplete)
  unfolding at_delimiter
  accept_opening b d o e n = accept_delimiter packet b d e n ∙ simp o

  accept_closing :
      (b : Batcher P) (d : P)
      → b.is_open ≡ true
      → (b.delimiter == "") ≡ false
      → (packet.name d == b.delimiter) ≡ true
      → accept packet b d ≡ (
        record b { pending = []; is_open = false },
        complete (record { packets = b.pending; bundled = true; state = b.state }),
      )
  unfolding at_delimiter
  accept_closing b d o e n = accept_delimiter packet b d e n ∙ simp o

  module _ (b : Batcher P) (closed : b.is_open ≡ false) (idle : b.pending ≡ [])
      (bundles : (b.delimiter == "") ≡ false) where
    -- From a batcher with no bundle open, and a delimiter configured: a delimiter, at most `limit`
    -- other packets and a delimiter give exactly one batch, which holds those packets in order, is
    -- marked as bundled and has the state of the opening delimiter; no error, and no bundle is left
    -- open.
    pub accept_all-bundle :
        (d d' : P) (ps : List P)
        → (packet.name d == b.delimiter) ≡ true
        → (packet.name d' == b.delimiter) ≡ true
        → NoDelimiter b.delimiter ps
        → length ps ≤ b.limit
        → accept_all packet b (d ∷ ps ++ d' ∷ []) ≡ (
          record b { pending = []; is_open = false; state = packet.state d },
          record { packets = ps; bundled = true; state = packet.state d } ∷ [],
          none,
        )
    unfolding accept_all after_one
    accept_all-bundle d d' ps hd hd' n room = rw (accept_opening b d closed bundles hd) (
        accept_all_open (opened_by b d) ps (d' ∷ []) refl bundles n
          (omega (arith, ap length idle, room))
        ∙ rw
            (accept_closing (record (opened_by b d) { pending = b.pending ++ ps }) d' refl bundles
              hd')
            (rw idle))

    -- From such a batcher: a delimiter and then more than `limit` other packets stop the stream with
    -- the error on a bundle too large, before any batch of it is complete.
    pub accept_all-too_large :
        (d p : P) (ps rest : List P)
        → (packet.name d == b.delimiter) ≡ true
        → NoDelimiter b.delimiter ps
        → (packet.name p == b.delimiter) ≡ false
        → length ps ≡ b.limit
        → ((accept_all packet b (d ∷ ps ++ p ∷ rest)).1 ≡ [])
          × ((accept_all packet b (d ∷ ps ++ p ∷ rest)).2 ≡ some b.limit)
    unfolding accept_all after_one
    accept_all-too_large d p ps rest hd n np full = rw (accept_opening b d closed bundles hd) (
        rw
          (accept_all_open (opened_by b d) ps (p ∷ rest) refl bundles n
            (omega (arith, ap length idle, full)))
          (rw
            (accept_full (record (opened_by b d) { pending = b.pending ++ ps }) p refl bundles np
              (omega (arith, length-append b.pending ps, full)))
            (refl, refl)))
