-- ===== src/Async.antt =====
-- src/async/cs.c: clients that ask without waiting, and server threads that answer some times each.
pub mod Server
pub mod Client
pub mod Conversation
mod Tests
