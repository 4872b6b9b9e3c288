-- ===== src/Request/Serve.antt =====
-- The state that an agent serves requests with, and the steps of a request on it: an answer of the
-- handler, a reply, and the decoding of arguments (`decode_args` of request.rs).
use review_protocol.Prelude.{ℕ, String, Result, ok, err, Option, none, some, map_err, ◌<>◌, decimal}
use review_protocol.ProtocolError.{IoError, ProtocolErrorKind, from_io}
use review_protocol.Wire.{Bytes, RecvStream, SendStream, send_frame}
use review_protocol.Request.NodeHandler.{HandlerError, recv_error, send_error, NodeReply, error}

pub record Agent (H : Type 0) : Type 0 where
  pub handler : H
  pub send : SendStream NodeReply
  pub recv : RecvStream

-- A step returns or fails, and leaves a new state in both cases.
abbrev pub Serve : Type 0 → Type 0 → Type 0
Serve H A = Agent H → Result A HandlerError × Agent H

module _ {H A B : Type 0} where
  abbrev pub continue :
      (A → Serve H B) → Result A HandlerError × Agent H → Result B HandlerError × Agent H
  continue f (ok a, w) = f a w
  continue f (err e, w) = (err e, w)

  infixl 5 ◌>>=◌ ◌>>◌
  abbrev pub ◌>>=◌ : Serve H A → (A → Serve H B) → Serve H B
  ◌>>=◌ m f w = continue f (m w)

  abbrev pub ◌>>◌ : Serve H A → Serve H B → Serve H B
  ◌>>◌ m n w = continue (λ _. n) (m w)

unfoldable pub undecodable_args_message : ℕ → String
undecodable_args_message code =
    "request code "
    <> decimal code
    <> ": the arguments could not be decoded; the manager and the agent may "
    <> "be built against different review-protocol releases"

-- The error with the category that the caller asks for, if it asks for one.
unfoldable pub classified : Option ProtocolErrorKind → IoError → IoError
unfolding from_io
classified (some kind) e = from_io kind e
classified none e = e

module _ {H : Type 0} where
  abbrev pub pure : {A : Type 0} → A → Serve H A
  pure a w = (ok a, w)

  -- A method of the handler.
  unfoldable pub call : {A : Type 0} → (H → A × H) → Serve H A
  call method w = (ok (method w.handler).0, record w { handler = (method w.handler).1 })

  -- `send_response(send, buf, result).await.map_err(HandlerError::SendError)`
  unfoldable pub respond : NodeReply → Serve H (Unit {0})
  respond reply w =
      let (r, s) = send_frame reply w.send in (map_err send_error r, record w { send = s })

  -- The `match` of `decode_args` on the parse: the failure of the best-effort reply is ignored.
  unfoldable pub decoded :
      {T : Type 0} → ℕ → Option ProtocolErrorKind → Result T IoError → Serve H T
  decoded code classify (ok args) w = (ok args, w)
  decoded code classify (err e) w = (
    err (recv_error (classified classify e)),
    record w { send = (send_frame (error (undecodable_args_message code)) w.send).1 },
  )

  unfoldable pub decode_args :
      {T : Type 0} → (Bytes → Result T IoError) → ℕ → Bytes → Option ProtocolErrorKind → Serve H T
  unfolding decoded
  decode_args parse_args code body classify = decoded code classify (parse_args body)
