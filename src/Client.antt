-- ===== src/Client.antt =====
-- client/: how a client is made, its read loop, its subscriptions, and what it sends.
pub mod Actions
pub mod Windows
pub mod Loop
pub mod Construction
pub mod Hands
pub mod Subscription
mod Tests
