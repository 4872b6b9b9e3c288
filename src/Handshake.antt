-- ===== src/Handshake.antt =====
-- The handshake of an agent and a manager: `HandshakeError` of lib.rs with its category of
-- protocol_error.rs, and the errors of a connection, which quinn reports.
pub mod Manager
pub mod Window
pub mod Refusal
pub mod Agreement
use review_protocol.Prelude.{String, ◌<>◌}
use review_protocol.ProtocolError.{
  IoError, ErrorKind, error_kind, invalid_data, unexpected_eof, ProtocolErrorKind,
}

-- `quinn::ConnectionError`, with the text of what it carries.
pub data ConnectionError : Type 0 where
  version_mismatch reset timed_out locally_closed cids_exhausted : ConnectionError
  transport_error connection_closed application_closed : String → ConnectionError

pub data HandshakeError : Type 0 where
  connection_closed : HandshakeError
  connection_lost : ConnectionError → HandshakeError
  read_error write_error : IoError → HandshakeError
  message_too_large invalid_message : HandshakeError
  invalid_version_argument : String → HandshakeError
  incompatible_protocol : String → String → HandshakeError

-- The `match` of `handle_handshake_send_io_error` on the kind.
unfoldable pub send_error_of_kind : ErrorKind → IoError → HandshakeError
send_error_of_kind invalid_data e = message_too_large
send_error_of_kind _ e = write_error e

unfoldable pub handle_handshake_send_io_error : IoError → HandshakeError
unfolding send_error_of_kind
handle_handshake_send_io_error e = send_error_of_kind (error_kind e) e

-- The `match` of `handle_handshake_recv_io_error` on the kind.
unfoldable pub recv_error_of_kind : ErrorKind → IoError → HandshakeError
recv_error_of_kind invalid_data e = invalid_message
recv_error_of_kind unexpected_eof e = HandshakeError.connection_closed
recv_error_of_kind _ e = read_error e

unfoldable pub handle_handshake_recv_io_error : IoError → HandshakeError
unfolding recv_error_of_kind
handle_handshake_recv_io_error e = recv_error_of_kind (error_kind e) e

-- `impl From<&HandshakeError> for ProtocolErrorKind`
unfoldable pub handshake_error_kind : HandshakeError → ProtocolErrorKind
handshake_error_kind (incompatible_protocol version range) = ProtocolErrorKind.version_mismatch
handshake_error_kind _ = ProtocolErrorKind.other
