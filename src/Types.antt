-- ===== src/Types.antt =====
-- types.rs: the data that requests and responses carry.
pub mod Shared
pub mod Reports
pub mod Detection
pub mod Engine
pub mod Node
