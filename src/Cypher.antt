-- ===== src/Cypher.antt =====
-- The pinchQL engine, internal/cypher/engine.go.
pub mod Token
pub mod Lexer
pub mod Typos
pub mod Hops
pub mod Ast
pub mod Columns
pub mod Where
pub mod Flatten
pub mod Result
pub mod Warnings
pub mod Parser
pub mod Sql
mod Examples
