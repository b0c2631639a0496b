-- ===== src/Base.antt =====
-- src/base.h and src/base.c: what the programs share.
pub mod Random
pub mod Identity
pub mod Strings
pub mod Transport
pub mod Dump
pub mod Time
pub mod Numbers
pub mod Signals
pub mod Errors
mod Tests
