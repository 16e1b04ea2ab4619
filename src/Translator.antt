-- ===== src/Translator.antt =====
-- The package translator: from MySQL's SQL to SQLite's.
pub mod Commands
pub mod Escapes
pub mod Options
pub mod Types
pub mod Tables
pub mod Rows
pub mod Functions
pub mod Translate
pub mod Unchanged
