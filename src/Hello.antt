-- ===== src/Hello.antt =====
-- src/helloworld.
pub mod Server
pub mod Client
mod Tests
