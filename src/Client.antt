-- ===== src/Client.antt =====
-- The agent's side of a connection: client.rs, client/api.rs.
pub mod Builder
pub mod Connect
pub mod Api
