-- ===== src/Mdp.antt =====
-- The Majordomo API of api/MDP.
pub mod Client
pub mod Worker
pub mod Examples
mod Tests
