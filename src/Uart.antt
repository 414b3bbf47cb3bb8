-- ===== src/Uart.antt =====
-- nets/uart.rs: UART sessions over Socket.IO.
pub mod Config
pub mod Events
pub mod Session
pub mod Stream
mod Progress
pub mod Waiting
pub mod Twins
pub mod Calls
pub mod Agree
pub mod Deadlines
mod Tests
