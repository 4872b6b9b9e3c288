-- ===== src/ServiceId.antt =====
-- service_id.rs: logical service identifiers, and their relation to the request codes and to the
-- typed node requests.
mod Defs
pub mod NodeIds
pub mod CommonIds
pub mod ServerIds
pub mod Catalog
pub mod ClientCodes
pub mod ServerCodes
pub mod Requests
pub use Defs.{ServiceId, new}
unfoldable pub use Defs.{is_family, to_string}
