-- ===== src/ProtocolError/Laws.antt =====
-- protocol_error.rs: the category that an error carries, and what wrapping keeps of the error.
use review_protocol.Prelude.{◌≡◌, refl, none}
use review_protocol.ProtocolError.{
  ProtocolErrorKind, IoError, io_error, error_kind, display, downcast_dispatch, from_io,
  of_io_error, of_error_kind,
}

-- Wrapping an error in a dispatch error of a given category keeps its kind and the text that it
-- displays, and the given category, whatever the kind says, is the one read back.
pub from_io_lem :
    (kind : ProtocolErrorKind) (e : IoError)
    → (error_kind (from_io kind e) ≡ error_kind e)
      × (display (from_io kind e) ≡ display e)
      × (of_io_error (from_io kind e) ≡ kind)
unfolding from_io of_io_error
from_io_lem kind (io_error k p) = (refl, refl, refl)

-- An error that carries no dispatch error is categorised by its kind alone.
pub of_io_error-eq-of_error_kind :
    (e : IoError) → downcast_dispatch e ≡ none → of_io_error e ≡ of_error_kind (error_kind e)
unfolding of_io_error
of_io_error-eq-of_error_kind e h = rw (h, of_io_error)
