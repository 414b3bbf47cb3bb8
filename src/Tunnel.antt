-- ===== src/Tunnel.antt =====
-- tunnel.rs: debug tunnels through the gateway.
pub mod Head
pub mod Refusal
pub mod Reading
mod Tests
