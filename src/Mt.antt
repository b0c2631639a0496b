-- ===== src/Mt.antt =====
-- src/mt.
pub mod Duff
pub mod Relay
pub mod Server
mod Tests
