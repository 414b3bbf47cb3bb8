-- ===== src/Chunked.antt =====
-- chunked.rs: the decoders of the debug service's hand-framed chunked stream.
pub mod Size
pub mod Source
pub mod Reader
pub mod Framing
pub mod Lines
mod Trailer
pub mod Decode
pub mod SizeLine
pub mod Collect
pub mod Turns
mod Tests
