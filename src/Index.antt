-- ===== src/Index.antt =====
-- Parts of internal/index.
pub mod Trace
pub mod Lock
mod Examples
