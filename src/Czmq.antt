-- ===== src/Czmq.antt =====
-- The functions of CZMQ and of the C library that the programs call: they are not in the
-- repository, so they are parameters, with what their documentation says of them.
mod Frames
mod Containers
mod Cursors
mod Envelopes
pub mod Instances
pub use Frames.*
pub use Containers.*
pub use Cursors.*
pub use Envelopes.*
