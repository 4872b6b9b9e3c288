-- ===== src/Types/Node.antt =====
-- `types::node` of types.rs: the requests of the node families and their responses.
pub mod Config
pub mod Observation
pub mod Package
pub mod Enroll
