-- ===== src/Proto.antt =====
-- crates/whdr-proto: the wire types and the channel grammar that every plane shares.
pub mod Channel
pub mod Messages
pub mod Ndjson
