-- ===== src/Server.antt =====
-- server.rs and its modules: the manager's side.
pub mod Api
pub mod Node
pub mod Events
pub mod Handler
pub mod Wrappers
