-- ===== src/World.antt =====
-- world/: what the connection has observed, one store for each domain.
pub mod Containers
pub mod Raw
pub mod Registries
pub mod Chat
pub mod Chunks
pub mod Core
pub mod Entities
pub mod Environment
pub mod Floats
pub mod Player
