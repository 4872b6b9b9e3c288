-- ===== src/Examples.antt =====
-- Concrete runs of the crate's parts.
pub mod Samples
pub mod Installs
pub mod Values
pub mod Managers
pub mod Exchanges
pub mod Agents
pub mod Handles
pub mod Handshakes
pub mod Calls
pub mod Streams
