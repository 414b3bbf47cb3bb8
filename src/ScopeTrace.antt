-- ===== src/ScopeTrace.antt =====
-- nets/scope_trace.rs: the binary frames of scope captures.
pub mod Frame
pub mod Capture
pub mod Reading
pub mod Axes
pub mod Yields
pub mod Safety
pub mod Channels
pub mod Layout
pub mod RoundTrip
pub mod Socket
pub mod Commands
pub mod Sequence
pub mod Streaming
mod Tests
