-- ===== src/Server/Wrappers.antt =====
-- server.rs: the deprecated functions beside the connection's methods. The context that
-- anyhow adds to an error is left out.
use review_protocol.Prelude.{String, Result, ok, List, Option}
use review_protocol.ProtocolError.{IoError}
use review_protocol.Wire.{SendStream, send_frame}
use review_protocol.Types.Detection.{LabelDb}
use review_protocol.Server.Api.Common.{Encoder, Sends}
use review_protocol.Server.Api.Common

-- The response to a request for patterns, `Ok` of them.
unfoldable pub respond_with_labeldb_patterns :
    List (String × Option LabelDb)
    → SendStream (Result (List (String × Option LabelDb)) String)
    → Result (Unit {0}) IoError × SendStream (Result (List (String × Option LabelDb)) String)
unfolding send_frame
respond_with_labeldb_patterns patterns send = send_frame (ok patterns) send

module _ {Net : Type 0} (encoder : Encoder Net) where
  -- The connection's method on a new handle of the same connection.
  unfoldable pub send_trusted_domain_list : List String → Sends (Unit {0})
  unfolding Common.send_trusted_domain_list
  send_trusted_domain_list list = Common.send_trusted_domain_list encoder list
