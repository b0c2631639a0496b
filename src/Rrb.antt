-- ===== src/Rrb.antt =====
-- src/rrb: a broker that passes requests and replies on, its client and its worker.
pub mod Broker
pub mod Client
pub mod Worker
pub mod Whole
mod Tests
