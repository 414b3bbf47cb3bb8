-- ===== src/Codec.antt =====
-- The encodings of binary data and of URL parts.
pub mod Hex
pub mod Base64
pub mod Percent
mod Tests
