-- ===== src/Db.antt =====
-- The store of internal/db.
pub mod Closure
pub mod Cte
pub mod Version
mod Examples
