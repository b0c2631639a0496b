-- ===== src/Cloud.antt =====
-- The programs of src/cloud.
pub mod Flow
pub mod Full
pub mod Sockets
pub mod State
mod Tests
