-- ===== src/Examples.antt =====
-- Concrete environments, and the theorems at concrete inputs.
pub mod Machine
pub mod Table
pub mod Stores
pub mod Servers
pub mod Schemas
pub mod Requests
pub mod Translations
pub mod Proxies
pub mod Terminals
pub mod Statements
