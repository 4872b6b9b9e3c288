-- ===== src/Server/Api/Errors.antt =====
-- The errors that the methods of server/api.rs return as `anyhow::Error`.
use review_protocol.Prelude.{String}
use review_protocol.ProtocolError.{IoError}
use review_protocol.Auth.{AuthorizationError}

-- An I/O error with or without a context, an error text that a peer answered or the method made,
-- and the denial of an authorizer.
pub data ApiError : Type 0 where
  io : IoError → ApiError
  context : String → IoError → ApiError
  text : String → ApiError
  denied : AuthorizationError → ApiError
