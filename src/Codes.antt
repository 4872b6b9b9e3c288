-- ===== src/Codes.antt =====
-- The two tables of wire request codes: of the requests that an agent serves (client.rs), and of
-- those that a manager serves (server.rs).
pub mod Client
pub mod Server
