-- ===== src/Auth.antt =====
-- auth.rs: the gateway's bearer tokens.
pub mod Jwt
pub mod Cookies
pub mod Denial
pub mod Store
pub mod Refresh
pub mod Gateway
pub mod Tests
