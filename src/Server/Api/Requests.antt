-- ===== src/Server/Api/Requests.antt =====
-- server/api.rs: the exchanges of one request and at most one response, and `node_power`, which
-- decides between them, with its outcome of server/node.rs.
pub mod Laws
use review_protocol.Prelude.{Bool, true, false, Result, ok, err, Option, none, some, String}
use review_protocol.ProtocolError.{IoError}
use review_protocol.Wire.{Bytes, SendStream, send_frame}
use review_protocol.ServiceId.{ServiceId}
use review_protocol.Auth.{
  Authorizer, AuthorizerV2, AuthorizationError, PeerContext, AuthorizationContext,
}
use review_protocol.Types.Node.Observation.{
  NodePowerRequest, NodePowerResponse, reboot, shutdown, graceful_reboot, graceful_shutdown,
}
use review_protocol.Request.NodeHandler.{Answer}
use review_protocol.Server.Api.Errors.{ApiError, io, text, denied}

-- The two halves of the stream that `open_bi` opens: what is sent, whether the send half was
-- finished, and what the receive of the response returns, with the decoding that oinq provides.
pub record Stream (T : Type 0) : Type 0 where
  pub send : SendStream Bytes
  pub finished : Bool
  pub response : Result (Answer T) IoError

-- The result of a request and the stream, if one was opened.
abbrev pub Requested : Type 0 → Type 0 → Type 0
Requested A T = Result A ApiError × Option (Stream T)

module _ {T : Type 0} where
  unfoldable pub receive : Result (Answer T) IoError → Result T ApiError
  receive (ok (ok resp)) = ok resp
  receive (ok (err e)) = err (text e)
  receive (err e) = err (io e)

  -- `frame::send_raw(..).await?`, and then the rest of a request on the stream.
  unfoldable pub after_send_raw :
      {A : Type 0}
      → (Stream T → Requested A T)
      → Stream T
      → Result (Unit {0}) IoError × SendStream Bytes
      → Requested A T
  after_send_raw more bi (ok u, out) = more (record bi { send = out })
  after_send_raw more bi (err e, out) = (err (io e), some (record bi { send = out }))

  -- `encode_request`, `open_bi` and `send_raw`, which every request starts with.
  unfoldable pub request :
      {A : Type 0}
      → (Stream T → Requested A T)
      → Result Bytes ApiError
      → Result (Stream T) IoError
      → Requested A T
  unfolding after_send_raw
  request more (err e) opened = (err e, none)
  request more (ok buf) (err e) = (err (io e), none)
  request more (ok buf) (ok bi) = after_send_raw more bi (send_frame buf bi.send)

  unfoldable pub send_request : Result Bytes ApiError → Result (Stream T) IoError → Requested T T
  unfolding request receive
  send_request = request (λ bi. (receive bi.response, some bi))

  unfoldable pub send_request_no_response :
      Result Bytes ApiError → Result (Stream T) IoError → Requested (Unit {0}) T
  unfolding request
  send_request_no_response = request (λ bi. (ok tt, some (record bi { finished = true })))

  -- `authorize(..).map_err(|e| anyhow!(e))?` before a request.
  unfoldable pub if_permitted :
      {A : Type 0} → Result (Unit {0}) AuthorizationError → Requested A T → Requested A T
  if_permitted (ok u) x = x
  if_permitted (err e) x = (err (denied e), none)

  unfoldable pub send_request_authorized :
      Result Bytes ApiError
      → Result (Stream T) IoError
      → ServiceId
      → PeerContext
      → Authorizer
      → Requested T T
  unfolding if_permitted send_request
  send_request_authorized encoded opened service_id p authorizer =
      if_permitted (authorizer.authorize p service_id) (send_request encoded opened)

  unfoldable pub send_request_authorized_with_context :
      Result Bytes ApiError
      → Result (Stream T) IoError
      → ServiceId
      → AuthorizationContext
      → AuthorizerV2
      → Requested T T
  unfolding if_permitted send_request
  send_request_authorized_with_context encoded opened service_id ctx authorizer =
      if_permitted (authorizer.authorize_with_context ctx service_id) (send_request encoded opened)

pub data NodePowerOutcome : Type 0 where
  sent : NodePowerOutcome
  response : NodePowerResponse → NodePowerOutcome

-- The result of an exchange, with an outcome made of its value.
unfoldable pub outcome :
    {A T : Type 0} → (A → NodePowerOutcome) → Requested A T → Requested NodePowerOutcome T
outcome f (ok a, bi) = (ok (f a), bi)
outcome f (err e, bi) = (err e, bi)

unfoldable pub node_power :
    (NodePowerRequest → Result Bytes ApiError)
    → NodePowerRequest
    → Result (Stream NodePowerResponse) IoError
    → Requested NodePowerOutcome NodePowerResponse
unfolding send_request send_request_no_response outcome
node_power encode reboot opened =
    outcome (λ u. sent) (send_request_no_response (encode reboot) opened)
node_power encode shutdown opened =
    outcome (λ u. sent) (send_request_no_response (encode shutdown) opened)
node_power encode graceful_reboot opened =
    outcome response (send_request (encode graceful_reboot) opened)
node_power encode graceful_shutdown opened =
    outcome response (send_request (encode graceful_shutdown) opened)
