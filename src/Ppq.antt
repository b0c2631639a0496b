-- ===== src/Ppq.antt =====
-- The Paranoid Pirate queue and its worker: src/ppq.
pub mod Defs
pub mod Queue
pub mod Worker
pub mod RoundTrip
mod Tests
