-- ===== src/ProtocolError.antt =====
-- protocol_error.rs: the categories of protocol errors, the typed error that a dispatch wraps in
-- an `io::Error`, and the category that is read back from an `io::Error`. With them stands
-- what the crate uses of the standard library's `io::Error`: its kind, and what it carries.
pub mod Laws
use review_protocol.Prelude.{String, Option, none, some, ◌<>◌}

-- `std::io::ErrorKind`, with the kinds that the crate names; `other` is any further kind.
pub data ErrorKind : Type 0 where
  unexpected_eof permission_denied invalid_data invalid_input connection_refused : ErrorKind
  connection_aborted connection_reset not_connected timed_out not_found other : ErrorKind

pub data ProtocolErrorKind : Type 0 where
  not_supported forbidden invalid_args version_mismatch other : ProtocolErrorKind

-- The standard library's text of a kind, which an error without payload displays.
pub description : ErrorKind → String
description unexpected_eof = "unexpected end of file"
description permission_denied = "permission denied"
description invalid_data = "invalid data"
description invalid_input = "invalid input parameter"
description connection_refused = "connection refused"
description connection_aborted = "connection aborted"
description connection_reset = "connection reset"
description not_connected = "not connected"
description timed_out = "timed out"
description not_found = "entity not found"
description ErrorKind.other = "other error"

-- `impl fmt::Display for ProtocolErrorKind`
unfoldable pub kind_to_string : ProtocolErrorKind → String
kind_to_string not_supported = "not supported"
kind_to_string forbidden = "forbidden"
kind_to_string invalid_args = "invalid arguments"
kind_to_string version_mismatch = "version mismatch"
kind_to_string ProtocolErrorKind.other = "other error"

pub record DispatchError : Type 0 where
  pub kind : ProtocolErrorKind
  pub message : String

unfoldable pub new : ProtocolErrorKind → String → DispatchError
new kind message = record { kind = kind; message = message }

unfoldable pub protocol_kind : DispatchError → ProtocolErrorKind
protocol_kind e = e.kind

-- `io::Error`: a kind, and the error or the text given to `io::Error::new`.
mutual
  pub data IoError : Type 0 where
    io_error : ErrorKind → Payload → IoError

  pub data Payload : Type 0 where
    simple : Payload
    message : String → Payload
    dispatch : DispatchError → Payload
    nested : IoError → Payload

-- `io::Error::kind`
abbrev pub error_kind : IoError → ErrorKind
error_kind (io_error k p) = k

-- An error displays its payload, or the text of its kind.
unfoldable mutual
  unfolding description

  pub display : IoError → String
  display (io_error k p) = display_payload p k

  pub display_payload : Payload → ErrorKind → String
  display_payload simple k = description k
  display_payload (message s) k = s
  display_payload (dispatch e) k = e.message
  display_payload (nested e) k = display e

-- `err.get_ref().and_then(|e| e.downcast_ref::<DispatchError>())`
abbrev pub downcast_dispatch : IoError → Option DispatchError
downcast_dispatch (io_error k (dispatch e)) = some e
downcast_dispatch (io_error k _) = none

unfoldable pub from_io : ProtocolErrorKind → IoError → IoError
unfolding display new
from_io kind e = io_error (error_kind e) (dispatch (new kind (display e)))

-- The category that the kind of an error stands for.
abbrev pub of_error_kind : ErrorKind → ProtocolErrorKind
of_error_kind permission_denied = forbidden
of_error_kind invalid_data = not_supported
of_error_kind invalid_input = invalid_args
of_error_kind _ = ProtocolErrorKind.other

unfoldable pub of_io_error : IoError → ProtocolErrorKind
unfolding protocol_kind
of_io_error e = elim (downcast_dispatch e) [
  | some inner ↦ protocol_kind inner
  | none ↦ of_error_kind (error_kind e)
]
