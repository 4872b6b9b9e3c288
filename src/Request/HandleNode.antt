-- ===== src/Request/HandleNode.antt =====
-- `handle_node` of request.rs: the loop that serves the requests of the node families.
pub mod Loop
pub mod Remaining
pub mod Replies
pub mod Counts
use review_protocol.Prelude.{
  ℕ, zero, suc, String, Bool, true, false, Result, ok, err, Option, none, some, List, length,
  if◌then◌else◌, ◌<>◌, decimal, and_then,
}
use review_protocol.ProtocolError.{IoError, error_kind, invalid_args}
use review_protocol.Wire.{Bytes, RecvStream, recv_raw}
use review_protocol.Codes.Client.{RequestCode, from_primitive}
use review_protocol.Request.PackageReader.{is_eof}
use review_protocol.Request.NodeHandler.{
  HandlerError, recv_error, NodeHandler, NodeCodec, Answer, node_power_expects_response, NodeReply,
}
use review_protocol.Request.Serve.{
  Agent, Serve, pure, call, respond, decode_args, continue, ◌>>=◌, ◌>>◌,
}
use review_protocol.Request.Package.{dispatch_node_package}
use review_protocol.Request.ServeLoop.{Served, serve_stream}

-- `format!("unknown request code: {code}")`
unfoldable pub unknown_code_message : ℕ → String
unknown_code_message code = "unknown request code: " <> decimal code

module _ {H : Type 0} (handler : NodeHandler H) (codec : NodeCodec) where
  -- Decoding, the handler's method, and the reply: the arm of a family that always answers.
  unfoldable pub serve_family :
      {Req Resp : Type 0}
      → (Bytes → Result Req IoError)
      → (Req → H → Answer Resp × H)
      → (Answer Resp → NodeReply)
      → ℕ
      → Bytes
      → Serve H (Unit {0})
  unfolding call
  serve_family parse method reply code body = do
    req ← decode_args parse code body none
    result ← call (method req)
    respond (reply result)

  -- The arm of `NodePower`, which is silent on the abrupt operations.
  unfoldable pub serve_power : ℕ → Bytes → Serve H (Unit {0})
  unfolding call node_power_expects_response
  serve_power code body = do
    req ← decode_args codec.parse_power code body (some invalid_args)
    result ← call (handler.node_power req)
    if node_power_expects_response req then respond (NodeReply.power result) else pure tt

  unfoldable pub serve_package : ℕ → Bytes → Serve H (Unit {0})
  serve_package code body = do
    req ← decode_args codec.parse_package code body none
    dispatch_node_package handler req

  -- The `match` on the request code.
  unfoldable pub dispatch : RequestCode → ℕ → Bytes → Serve H (Unit {0})
  unfolding unknown_code_message
  dispatch RequestCode.node_service code body =
      serve_family codec.parse_service handler.node_service NodeReply.service code body
  dispatch RequestCode.node_network_interface code body =
      serve_family codec.parse_network_interface handler.node_network_interface
        NodeReply.network_interface code body
  dispatch RequestCode.node_hostname code body =
      serve_family codec.parse_hostname handler.node_hostname NodeReply.hostname code body
  dispatch RequestCode.node_time_sync code body =
      serve_family codec.parse_time_sync handler.node_time_sync NodeReply.time_sync code body
  dispatch RequestCode.node_logging code body =
      serve_family codec.parse_logging handler.node_logging NodeReply.logging code body
  dispatch RequestCode.node_remote_access code body =
      serve_family codec.parse_remote_access handler.node_remote_access NodeReply.remote_access code
        body
  dispatch RequestCode.node_power code body = serve_power code body
  dispatch RequestCode.node_observation code body =
      serve_family codec.parse_observation handler.node_observation NodeReply.observation code body
  dispatch RequestCode.node_version code body =
      serve_family codec.parse_version handler.node_version NodeReply.version code body
  dispatch RequestCode.node_package code body = serve_package code body
  dispatch RequestCode.node_enroll code body =
      serve_family codec.parse_enroll handler.node_enroll NodeReply.enroll code body
  dispatch _ code body = respond (NodeReply.error (unknown_code_message code))

  unfoldable pub handle_node : Agent H → Served codec.split_request dispatch
  unfolding serve_stream
  handle_node w = serve_stream codec.split_request dispatch w
