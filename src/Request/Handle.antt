-- ===== src/Request/Handle.antt =====
-- `handle` of request.rs: the loop that serves the requests to an agent of any kind, the flat
-- requests and those of the node families.
pub mod Loop
pub mod Nodes
pub mod Flat
pub mod Compat
pub mod Counts
pub mod Service
pub mod Answered
pub mod Refines
use review_protocol.Prelude.{
  ℕ, String, Result, ok, err, Option, none, some, List, ◌<>◌, if◌then◌else◌, and_then, map_ok,
}
use review_protocol.ProtocolError.{IoError, ProtocolErrorKind, invalid_args}
use review_protocol.Wire.{Bytes}
use review_protocol.Codes.Client.{RequestCode}
use review_protocol.Types.Shared.{ℤ, Process, ResourceUsage}
use review_protocol.Types.Detection.{HostNetworkGroup, SamplingPolicy}
use review_protocol.Types.Engine.{
  CustomerDataDeletionRequest, TrainModelRequest, CloneModelRequest, TrafficFilterRule,
}
use review_protocol.Types.Node.Observation.{
  NodePowerRequest, NodeObservationRequest, NodeObservationResponse,
}
use review_protocol.Request.NodeHandler.{
  NodeCodec, Answer, NodeReply, acknowledged, usage, processes, node_power_expects_response,
}
use review_protocol.Request.Handler.{Handler, node_handler}
use review_protocol.Request.Serve.{
  Agent, Serve, pure, call, respond, decode_args, continue, ◌>>=◌, ◌>>◌,
}
use review_protocol.Request.Package.{dispatch_node_package}
use review_protocol.Request.ServeLoop.{Served, serve_stream}
use review_protocol.Request.HandleNode.{unknown_code_message}

-- What bincode makes of the arguments of the flat requests, and the text that the derived `Debug`
-- makes of an observation; with what `NodeCodec` says of the others.
pub record AgentCodec (Net : Type 0) : Type 0 where
  pub node : NodeCodec
  pub parse_text : Bytes → Result String IoError
  pub parse_texts : Bytes → Result (List String) IoError
  pub parse_policies : Bytes → Result (List SamplingPolicy) IoError
  pub parse_policy_ids : Bytes → Result (List ℕ) IoError
  pub parse_networks : Bytes → Result (HostNetworkGroup Net) IoError
  pub parse_rules : Bytes → Result (List (TrafficFilterRule Net)) IoError
  pub parse_deletion : Bytes → Result CustomerDataDeletionRequest IoError
  pub parse_train_model : Bytes → Result TrainModelRequest IoError
  pub parse_clone_model : Bytes → Result CloneModelRequest IoError
  pub parse_run_id : Bytes → Result ℕ IoError
  pub parse_detector_id : Bytes → Result ℤ IoError
  pub debug_observation : NodeObservationResponse → String

module _ {H : Type 0} where
  -- A method without arguments, and the reply.
  unfoldable pub serve_method :
      {A : Type 0} → (H → Answer A × H) → (Answer A → NodeReply) → Serve H (Unit {0})
  unfolding call
  serve_method method reply = do result ← call method; respond (reply result)

  -- Decoding, a method on the arguments, and the reply.
  unfoldable pub serve_args :
      {Req A : Type 0}
      → (Bytes → Result Req IoError)
      → Option ProtocolErrorKind
      → (Req → H → Answer A × H)
      → (Answer A → NodeReply)
      → ℕ
      → Bytes
      → Serve H (Unit {0})
  unfolding call
  serve_args parse classify method reply code body = do
    req ← decode_args parse code body classify
    result ← call (method req)
    respond (reply result)

module _ {Net H : Type 0} (handler : Handler Net H) (codec : AgentCodec Net) where
  -- `format!("unexpected node_observation response: {other:?}")`
  unfoldable pub unexpected_observation : NodeObservationResponse → String
  unexpected_observation other =
      "unexpected node_observation response: " <> codec.debug_observation other

  -- The `match` of the `ResourceUsage` arm on an observation.
  unfoldable pub usage_of : NodeObservationResponse → Answer (String × ResourceUsage)
  unfolding unexpected_observation
  usage_of (NodeObservationResponse.resource_usage hostname u) = ok (hostname, u)
  usage_of other = err (unexpected_observation other)

  -- The `match` of the `ProcessList` arm.
  unfoldable pub processes_of : NodeObservationResponse → Answer (List Process)
  unfolding unexpected_observation
  processes_of (NodeObservationResponse.process_list ps) = ok ps
  processes_of other = err (unexpected_observation other)

  -- The arms `Reboot` and `Shutdown`, which go through `node_power`.
  unfoldable pub serve_flat_power : NodePowerRequest → Serve H (Unit {0})
  unfolding call
  serve_flat_power req = do
    result ← call (handler.node_power req)
    respond (acknowledged (map_ok (λ _. tt) result))

  -- The arms `ResourceUsage` and `ProcessList`, which go through `node_observation`.
  unfoldable pub serve_flat_observation :
      {A : Type 0}
      → NodeObservationRequest
      → (NodeObservationResponse → Answer A)
      → (Answer A → NodeReply)
      → Serve H (Unit {0})
  unfolding call
  serve_flat_observation req extract reply = do
    result ← call (handler.node_observation req)
    respond (reply (and_then result extract))

  -- The arm `NodePower`.
  unfoldable pub serve_grouped_power : ℕ → Bytes → Serve H (Unit {0})
  unfolding call node_power_expects_response
  serve_grouped_power code body = do
    req ← decode_args codec.node.parse_power code body (some invalid_args)
    result ← call (handler.node_power req)
    if node_power_expects_response req then respond (NodeReply.power result) else pure tt

  -- The arm `NodePackage`.
  unfoldable pub serve_grouped_package : ℕ → Bytes → Serve H (Unit {0})
  serve_grouped_package code body = do
    req ← decode_args codec.node.parse_package code body none
    dispatch_node_package (node_handler handler) req

  -- The `match` on the request code.
  unfoldable pub dispatch_any : RequestCode → ℕ → Bytes → Serve H (Unit {0})
  unfolding unknown_code_message usage_of processes_of
  dispatch_any RequestCode.dns_start code body = serve_method handler.dns_start acknowledged
  dispatch_any RequestCode.dns_stop code body = serve_method handler.dns_stop acknowledged
  dispatch_any RequestCode.reboot code body = serve_flat_power NodePowerRequest.reboot
  dispatch_any RequestCode.reload_config code body = serve_method handler.reload_config acknowledged
  dispatch_any RequestCode.reload_ti code body =
      serve_args codec.parse_text (some invalid_args) handler.reload_ti acknowledged code body
  dispatch_any RequestCode.resource_usage code body =
      serve_flat_observation NodeObservationRequest.resource_usage usage_of usage
  dispatch_any RequestCode.tor_exit_node_list code body =
      serve_args codec.parse_texts none handler.tor_exit_node_list acknowledged code body
  dispatch_any RequestCode.sampling_policy_list code body =
      serve_args codec.parse_policies none handler.sampling_policy_list acknowledged code body
  dispatch_any RequestCode.delete_sampling_policy code body =
      serve_args codec.parse_policy_ids none handler.delete_sampling_policy acknowledged code body
  dispatch_any RequestCode.trusted_domain_list code body =
      serve_args codec.parse_texts none handler.trusted_domain_list acknowledged code body
  dispatch_any RequestCode.internal_network_list code body =
      serve_args codec.parse_networks none handler.internal_network_list acknowledged code body
  dispatch_any RequestCode.allowlist code body =
      serve_args codec.parse_networks none handler.allowlist acknowledged code body
  dispatch_any RequestCode.blocklist code body =
      serve_args codec.parse_networks none handler.blocklist acknowledged code body
  dispatch_any RequestCode.echo_request code body = respond (acknowledged (ok tt))
  dispatch_any RequestCode.trusted_user_agent_list code body =
      serve_args codec.parse_texts none handler.trusted_user_agent_list acknowledged code body
  dispatch_any RequestCode.reload_filter_rule code body =
      serve_args codec.parse_rules none handler.update_traffic_filter_rules acknowledged code body
  dispatch_any RequestCode.update_config code body = serve_method handler.update_config acknowledged
  dispatch_any RequestCode.delete_customer_data code body =
      serve_args codec.parse_deletion none handler.delete_customer_data acknowledged code body
  dispatch_any RequestCode.process_list code body =
      serve_flat_observation NodeObservationRequest.process_list processes_of processes
  dispatch_any RequestCode.semi_supervised_models code body =
      serve_method (handler.update_semi_supervised_models body) acknowledged
  dispatch_any RequestCode.shutdown code body = serve_flat_power NodePowerRequest.shutdown
  dispatch_any RequestCode.node_service code body =
      serve_args codec.node.parse_service none handler.node_service NodeReply.service code body
  dispatch_any RequestCode.node_network_interface code body =
      serve_args codec.node.parse_network_interface none handler.node_network_interface
        NodeReply.network_interface code body
  dispatch_any RequestCode.node_hostname code body =
      serve_args codec.node.parse_hostname none handler.node_hostname NodeReply.hostname code body
  dispatch_any RequestCode.node_time_sync code body =
      serve_args codec.node.parse_time_sync none handler.node_time_sync NodeReply.time_sync code
        body
  dispatch_any RequestCode.node_logging code body =
      serve_args codec.node.parse_logging none handler.node_logging NodeReply.logging code body
  dispatch_any RequestCode.node_remote_access code body =
      serve_args codec.node.parse_remote_access none handler.node_remote_access
        NodeReply.remote_access code body
  dispatch_any RequestCode.node_power code body = serve_grouped_power code body
  dispatch_any RequestCode.node_observation code body =
      serve_args codec.node.parse_observation none handler.node_observation NodeReply.observation
        code body
  dispatch_any RequestCode.node_version code body =
      serve_args codec.node.parse_version none handler.node_version NodeReply.version code body
  dispatch_any RequestCode.node_package code body = serve_grouped_package code body
  dispatch_any RequestCode.node_enroll code body =
      serve_args codec.node.parse_enroll none handler.node_enroll NodeReply.enroll code body
  dispatch_any RequestCode.train_model code body =
      serve_args codec.parse_train_model none handler.train_model acknowledged code body
  dispatch_any RequestCode.clone_model code body =
      serve_args codec.parse_clone_model none handler.clone_model acknowledged code body
  dispatch_any RequestCode.cancel_run code body =
      serve_args codec.parse_run_id none handler.cancel_run acknowledged code body
  dispatch_any RequestCode.run_detector_once code body =
      serve_args codec.parse_detector_id none handler.run_detector_once acknowledged code body
  dispatch_any RequestCode.unknown code body = respond (NodeReply.error (unknown_code_message code))

  unfoldable pub handle : Agent H → Served codec.node.split_request dispatch_any
  unfolding serve_stream
  handle w = serve_stream codec.node.split_request dispatch_any w
