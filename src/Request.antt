-- ===== src/Request.antt =====
-- request.rs: the agent's side, which serves the requests of a manager.
pub mod PackageReader
pub mod Installer
pub mod NodeHandler
pub mod Serve
pub mod Package
pub mod Handler
pub mod ServeLoop
pub mod HandleNode
pub mod Handle
