-- ===== src/Erl.antt =====
-- src/erl: two servers that take terms of Erlang. What the library of Erlang makes of bytes is a
-- parameter.
pub mod Server1
pub mod Server2
mod Tests
