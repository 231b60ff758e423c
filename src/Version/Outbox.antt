-- ===== src/Version/Outbox.antt =====
-- version/outbox.go: the replies that handlers leave for the client to write.
use headless_minecraft.Base.{ℕ, List, [], ◌∷◌, ◌++◌, length}

pub record Outbox (P : Type 0) : Type 0 where
  pub packets : List P

module _ {P : Type 0} where
  unfoldable pub add : Outbox P → P → Outbox P
  add o p = record o { packets = o.packets ++ p ∷ [] }

  unfoldable pub queued : Outbox P → ℕ
  queued o = length o.packets

  unfoldable pub drain : Outbox P → List P × Outbox P
  drain o = (o.packets, record o { packets = [] })

  unfoldable pub add_all : Outbox P → List P → Outbox P
  unfolding add
  add_all o [] = o
  add_all o (p ∷ ps) = add_all (add o p) ps
