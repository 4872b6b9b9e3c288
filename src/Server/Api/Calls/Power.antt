-- ===== src/Server/Api/Calls/Power.antt =====
-- A call of the manager's `node_power` of server/api.rs against an agent's `handle` of request.rs:
-- the manager waits where the agent answers, and not where the host goes down at once.
use review_protocol.Prelude.{Result, ok, err, ◌∷◌, List}
use review_protocol.ProtocolError.{IoError, io_error, invalid_data, simple}
use review_protocol.Types.Node.Observation.{NodePowerResponse}
use review_protocol.Request.NodeHandler.{Answer, NodeReply}
use review_protocol.Request.Handler.{Handler}
use review_protocol.Request.Handle.Service as Service

-- What `frame::recv` makes of the agent's first reply to a power request; without one the stream has
-- ended.
abbrev pub power_response : List NodeReply → Result (Answer NodePowerResponse) IoError
power_response (NodeReply.power x ∷ rest) = ok x
power_response _ = err (io_error invalid_data simple)
