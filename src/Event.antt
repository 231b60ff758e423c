-- ===== src/Event.antt =====
-- event/domain.go and event/collector.go: the event interface, the revision stamp that every event
-- struct embeds, and the collector that holds events until their revision is known.
pub mod Containers
pub mod Registry
pub mod Chat
pub mod Damage
pub mod Entities
pub mod Player
pub mod World
use headless_minecraft.Base.{ℕ, ◌+◌, String, List, [], ◌∷◌, ◌++◌, map, length}

-- A set of bits; one constant is `1 << iota` of its place in the source's list.
abbrev pub Domain : Type 0
Domain = ℕ

abbrev pub domain_session : Domain
domain_session = 1

abbrev pub domain_player : Domain
domain_player = 2

abbrev pub domain_world : Domain
domain_world = 4

abbrev pub domain_entities : Domain
domain_entities = 8

abbrev pub domain_containers : Domain
domain_containers = 16

abbrev pub domain_registry : Domain
domain_registry = 32

abbrev pub domain_chat : Domain
domain_chat = 64

abbrev pub domain_raw : Domain
domain_raw = 128

-- The methods `Name` and `Domain` of a type of events. `Revision` is the stamp's.
pub record Event (E : Type 0) : Type 0 where
  pub name : E → String
  pub domain : E → Domain

pub record Stamped (E : Type 0) : Type 0 where
  pub revision : ℕ
  pub event : E

pub record Collector (E : Type 0) : Type 0 where
  pub pending : List (ℕ → Stamped E)

module _ {E : Type 0} where
  abbrev pub new_collector : Collector E
  new_collector = record { pending = [] }

  abbrev pub stamp : E → ℕ → Stamped E
  stamp e revision = record { revision = revision; event = e }

  unfoldable pub emit : Collector E → E → Collector E
  emit c e = record c { pending = c.pending ++ stamp e ∷ [] }

  pub collected : Collector E → ℕ
  collected c = length c.pending

  unfoldable pub events : Collector E → ℕ → List (Stamped E)
  events c revision = map (λ f. f revision) c.pending

  unfoldable pub reset : Collector E → Collector E
  reset c = record c { pending = [] }

  unfoldable pub one : E → ℕ → List (Stamped E)
  unfolding emit events
  one e revision = events (emit new_collector e) revision
