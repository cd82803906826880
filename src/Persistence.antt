-- ===== src/Persistence.antt =====
-- movie/persistence: durable state, its SQLite store and the behaviour that uses it.
pub mod Errors
pub mod Model
pub mod Store
pub mod Behavior
mod Examples
