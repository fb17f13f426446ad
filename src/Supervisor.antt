-- ===== src/Supervisor.antt =====
-- The supervisor of the inner server, internal/supervisor/supervisor.go.
pub mod Breaker
pub mod Probe
pub mod Session
mod Examples
