-- ===== src/Recovery.antt =====
-- The client of crates/whdr-sub-kit against the replay of crates/whdr-server: what a client is given
-- when it resumes.
pub mod Client
pub mod Order
pub mod Resumption
pub mod Encoding
mod Tests
