-- ===== src/Loadbalance.antt =====
-- The load balancing brokers of src/loadbalance.
pub mod Array
pub mod Lists
pub mod Requests
pub mod Equivalence
pub mod Whole
mod Tests
