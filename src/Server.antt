-- ===== src/Server.antt =====
-- internal/server: the parts of the collector that decide something.
pub mod Escapes
pub mod Limiter
pub mod Restart
pub mod Tunnel
mod Tests
