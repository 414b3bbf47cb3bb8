-- ===== src/AsyncBody.antt =====
-- `AsyncBody` of chunked.rs: response bodies for `AsyncRead`.
pub mod Source
pub mod Body
pub mod Pieces
pub mod Lines
pub mod Payload
pub mod Decode
pub mod Turns
pub mod Collect
mod Tests
