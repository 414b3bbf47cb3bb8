-- ===== src/Wire.antt =====
-- wire.rs: requests to a box, and how its answers are read.
pub mod Request
pub mod Values
pub mod Dfu
pub mod Multipart
pub mod Envelope
pub mod Compat
pub mod Debug
mod Tests
