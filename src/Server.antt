-- ===== src/Server.antt =====
-- Parts of internal/server.
pub mod Pages
pub mod Latency
pub mod Events
mod Examples
