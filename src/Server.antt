-- ===== src/Server.antt =====
-- The package server: the login, the session, the statements that the SQL parser returns, and the
-- handler of MySQL commands.
pub mod Binding
pub mod Session
pub mod Statement
pub mod Queries
pub mod InfoSchema
pub mod Engine
pub mod Resultset
pub mod Action
pub mod Handler
pub mod Connection
