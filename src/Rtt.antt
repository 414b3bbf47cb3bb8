-- ===== src/Rtt.antt =====
-- nets/rtt.rs: RTT sessions over Socket.IO.
pub mod Events
pub mod Session
pub mod Twins
pub mod AsUart
mod Tests
