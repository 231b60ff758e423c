-- ===== src/Version.antt =====
-- version/: what a protocol version hands the client, here the batching of packets, the outbox of
-- replies, and the intents that a client sends.
pub mod Actions
pub mod Packet
pub mod Batch
pub mod Outbox
