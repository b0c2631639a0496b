-- ===== src/Lpp.antt =====
-- The Lazy Pirate programs of src/lpp.
pub mod Client
pub mod Server
pub mod Exchange
mod Tests
