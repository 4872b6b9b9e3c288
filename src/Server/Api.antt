-- ===== src/Server/Api.antt =====
-- server/api.rs: the requests that a manager sends to an agent.
pub mod Errors
pub mod SendPackage
pub mod Install
pub mod Requests
pub mod Common
pub mod NodeFamilies
pub mod Calls
