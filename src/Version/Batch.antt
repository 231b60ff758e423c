-- ===== src/Version/Batch.antt =====
-- version/batch.go: packets that a delimiter bundles take effect as one batch.
pub mod Laws
pub mod Bundles
mod Tests
use headless_minecraft.Base.{
  ℕ, zero, suc, ◌≡◌, String, Bool, true, false, Option, none, some, List, [], ◌∷◌, ◌++◌, ℤ, pos,
  negsuc, leb, if◌then◌else◌, ◌==◌, string_key, length,
}
use headless_minecraft.Version.Packet.{Packet}

pub record Batch (P : Type 0) : Type 0 where
  pub packets : List P
  pub bundled : Bool
  pub state : String

pub record Batcher (P : Type 0) : Type 0 where
  pub delimiter : String
  pub limit : ℕ
  pub pending : List P
  pub is_open : Bool
  pub state : String

-- The results of `Accept`: no batch yet, a complete batch, or ErrBundleTooLarge with the limit.
pub data Accepted (P : Type 0) : Type 0 where
  incomplete : Accepted P
  complete : Batch P → Accepted P
  too_large : ℕ → Accepted P

module _ {P : Type 0} where
  -- `none` is the error on a limit that is not positive.
  unfoldable pub new_batcher : String → ℤ → Option (Batcher P)
  new_batcher delimiter (pos (suc n)) =
      some
        (record { delimiter = delimiter; limit = suc n; pending = []; is_open = false; state = "" })
  new_batcher delimiter limit = none

  -- ErrBundleUnterminated, with the number of packets pending.
  unfoldable pub finish : Batcher P → Option ℕ
  finish b = if b.is_open then some (length b.pending) else none

module _ {P : Type 0} (packet : Packet P) where
  unfoldable pub single : P → Batch P
  single p = record { packets = p ∷ []; bundled = false; state = packet.state p }

  unfoldable pub at_delimiter : Batcher P → P → Batcher P × Accepted P
  at_delimiter b p =
      if b.is_open
      then (
        record b { pending = []; is_open = false },
        complete (record { packets = b.pending; bundled = true; state = b.state }),
      )
      else (record b { is_open = true; state = packet.state p }, incomplete)

  unfoldable pub at_packet : Batcher P → P → Batcher P × Accepted P
  unfolding single
  at_packet b p =
      if b.is_open
      then (if leb b.limit (length b.pending)
          then (b, too_large b.limit)
          else (record b { pending = b.pending ++ p ∷ [] }, incomplete))
      else (b, complete (single p))

  unfoldable pub accept : Batcher P → P → Batcher P × Accepted P
  unfolding single at_delimiter at_packet
  accept b p =
      if b.delimiter == ""
      then (b, complete (single p))
      else if packet.name p == b.delimiter
      then at_delimiter b p
      else at_packet b p

  -- The packets of a stream in turn, as the read loop accepts them: the batches in order, and the
  -- error that stopped the loop, if one did.
  unfoldable pub after_one :
      Batcher P × Accepted P
      → Batcher P × List (Batch P) × Option ℕ
      → Batcher P × List (Batch P) × Option ℕ
  after_one (b, incomplete) rest = rest
  after_one (b, complete x) (s, bs, e) = (s, x ∷ bs, e)
  after_one (b, too_large n) rest = (b, [], some n)

  unfoldable pub accept_all : Batcher P → List P → Batcher P × List (Batch P) × Option ℕ
  unfolding accept after_one
  accept_all b [] = (b, [], none)
  accept_all b (p ∷ ps) = let r = accept b p in after_one r (accept_all r.0 ps)
