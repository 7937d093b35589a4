-- ===== src/SubKit.antt =====
-- crates/whdr-sub-kit: the Rust client of the subscriber plane.
pub mod Resume
pub mod Session
