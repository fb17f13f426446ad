-- ===== src/Ast.antt =====
-- Parts of internal/ast.
pub mod Duplicates
mod Examples
