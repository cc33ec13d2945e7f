-- ===== src/Dialect.antt =====
-- The differences between the SQL dialects (packages/db/dialect/dialect.go).
pub mod Rebind
pub mod Lexer
pub mod Copies
pub mod Rebound
