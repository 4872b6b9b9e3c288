-- ===== src/Server/Api/Calls.antt =====
-- The requests that a manager's methods, server/api.rs, send to an agent, request.rs, for one reply:
-- the method on each side, and the reply between them.
pub mod Sides
pub mod Served
pub mod Local
pub mod Power
pub mod Notify
use review_protocol.Prelude.{◌≡◌, false}
use review_protocol.Types.Node.Package.{NodePackageResponse}
use review_protocol.Prelude.{ℕ, Result, ok, err, List, [], ◌∷◌}
use review_protocol.ProtocolError.{IoError, io_error, invalid_data, simple}
use review_protocol.Wire.{Bytes}
use review_protocol.Request.NodeHandler.{Answer, NodeReply, acknowledged, package_result}
use review_protocol.Request.Handler.{Handler}
use review_protocol.Request.Handle.Service.{AgentRequest, is_install}
use review_protocol.Request.Handle.Service as Service
use review_protocol.Types.Node.Config.{
  NodeServiceResponse, NodeNetworkInterfaceResponse, NodeHostnameResponse, NodeTimeSyncResponse,
  NodeLoggingResponse, NodeRemoteAccessResponse,
}
use review_protocol.Types.Node.Observation.{NodeObservationResponse, NodeVersionResponse}
use review_protocol.Types.Node.Enroll.{NodeEnrollResponse}
use review_protocol.Server.Api.Errors.{ApiError}
use review_protocol.Server.Api.Common.{
  Encoder, Sends, send_allowlist, send_blocklist, send_config_update_cmd,
  send_delete_customer_data_cmd, send_train_model, send_clone_model, send_cancel_run,
  send_run_detector_once, send_filtering_rules, send_internal_network_list, send_ping,
  send_sampling_policies, send_tor_exit_node_list, send_trusted_domain_list,
  send_trusted_user_agent_list,
}
use review_protocol.Server.Api.NodeFamilies.{
  node_service, node_network_interface, node_hostname, node_time_sync, node_logging,
  node_remote_access, node_observation, node_version, node_enroll,
}
use review_protocol.Server.Api.NodeFamilies

module _ {Net : Type 0} where
  -- The requests that have such a method. Those that change the host's power are in Power.
  abbrev pub Sendable : AgentRequest Net → Type 0
  Sendable (Service.AgentRequest.allowlist a) = Unit
  Sendable (Service.AgentRequest.blocklist a) = Unit
  Sendable Service.AgentRequest.update_config = Unit
  Sendable (Service.AgentRequest.delete_customer_data a) = Unit
  Sendable (Service.AgentRequest.train_model a) = Unit
  Sendable (Service.AgentRequest.clone_model a) = Unit
  Sendable (Service.AgentRequest.cancel_run a) = Unit
  Sendable (Service.AgentRequest.run_detector_once a) = Unit
  Sendable (Service.AgentRequest.reload_filter_rule a) = Unit
  Sendable (Service.AgentRequest.internal_network_list a) = Unit
  Sendable Service.AgentRequest.echo_request = Unit
  Sendable (Service.AgentRequest.sampling_policy_list a) = Unit
  Sendable (Service.AgentRequest.tor_exit_node_list a) = Unit
  Sendable (Service.AgentRequest.trusted_domain_list a) = Unit
  Sendable (Service.AgentRequest.trusted_user_agent_list a) = Unit
  Sendable (Service.AgentRequest.node_service a) = Unit
  Sendable (Service.AgentRequest.node_network_interface a) = Unit
  Sendable (Service.AgentRequest.node_hostname a) = Unit
  Sendable (Service.AgentRequest.node_time_sync a) = Unit
  Sendable (Service.AgentRequest.node_logging a) = Unit
  Sendable (Service.AgentRequest.node_remote_access a) = Unit
  Sendable (Service.AgentRequest.node_observation a) = Unit
  Sendable (Service.AgentRequest.node_version a) = Unit
  Sendable (Service.AgentRequest.node_enroll a) = Unit
  Sendable (Service.AgentRequest.node_package a) = is_install a ≡ false
  Sendable _ = ⊥

  -- What the agent's method answers, but for errors.
  abbrev pub Response : AgentRequest Net → Type 0
  Response (Service.AgentRequest.allowlist a) = Unit {0}
  Response (Service.AgentRequest.blocklist a) = Unit {0}
  Response Service.AgentRequest.update_config = Unit {0}
  Response (Service.AgentRequest.delete_customer_data a) = Unit {0}
  Response (Service.AgentRequest.train_model a) = Unit {0}
  Response (Service.AgentRequest.clone_model a) = Unit {0}
  Response (Service.AgentRequest.cancel_run a) = Unit {0}
  Response (Service.AgentRequest.run_detector_once a) = Unit {0}
  Response (Service.AgentRequest.reload_filter_rule a) = Unit {0}
  Response (Service.AgentRequest.internal_network_list a) = Unit {0}
  Response Service.AgentRequest.echo_request = Unit {0}
  Response (Service.AgentRequest.sampling_policy_list a) = Unit {0}
  Response (Service.AgentRequest.tor_exit_node_list a) = Unit {0}
  Response (Service.AgentRequest.trusted_domain_list a) = Unit {0}
  Response (Service.AgentRequest.trusted_user_agent_list a) = Unit {0}
  Response (Service.AgentRequest.node_service a) = NodeServiceResponse
  Response (Service.AgentRequest.node_network_interface a) = NodeNetworkInterfaceResponse
  Response (Service.AgentRequest.node_hostname a) = NodeHostnameResponse
  Response (Service.AgentRequest.node_time_sync a) = NodeTimeSyncResponse
  Response (Service.AgentRequest.node_logging a) = NodeLoggingResponse
  Response (Service.AgentRequest.node_remote_access a) = NodeRemoteAccessResponse
  Response (Service.AgentRequest.node_observation a) = NodeObservationResponse
  Response (Service.AgentRequest.node_version a) = NodeVersionResponse
  Response (Service.AgentRequest.node_enroll a) = NodeEnrollResponse
  Response (Service.AgentRequest.node_package a) = NodePackageResponse
  Response _ = Unit {0}

  -- The reply that carries an answer.
  abbrev pub reply_of : (r : AgentRequest Net) → Answer (Response r) → NodeReply
  reply_of (Service.AgentRequest.allowlist a) x = acknowledged x
  reply_of (Service.AgentRequest.blocklist a) x = acknowledged x
  reply_of Service.AgentRequest.update_config x = acknowledged x
  reply_of (Service.AgentRequest.delete_customer_data a) x = acknowledged x
  reply_of (Service.AgentRequest.train_model a) x = acknowledged x
  reply_of (Service.AgentRequest.clone_model a) x = acknowledged x
  reply_of (Service.AgentRequest.cancel_run a) x = acknowledged x
  reply_of (Service.AgentRequest.run_detector_once a) x = acknowledged x
  reply_of (Service.AgentRequest.reload_filter_rule a) x = acknowledged x
  reply_of (Service.AgentRequest.internal_network_list a) x = acknowledged x
  reply_of Service.AgentRequest.echo_request x = acknowledged x
  reply_of (Service.AgentRequest.sampling_policy_list a) x = acknowledged x
  reply_of (Service.AgentRequest.tor_exit_node_list a) x = acknowledged x
  reply_of (Service.AgentRequest.trusted_domain_list a) x = acknowledged x
  reply_of (Service.AgentRequest.trusted_user_agent_list a) x = acknowledged x
  reply_of (Service.AgentRequest.node_service a) x = NodeReply.service x
  reply_of (Service.AgentRequest.node_network_interface a) x = NodeReply.network_interface x
  reply_of (Service.AgentRequest.node_hostname a) x = NodeReply.hostname x
  reply_of (Service.AgentRequest.node_time_sync a) x = NodeReply.time_sync x
  reply_of (Service.AgentRequest.node_logging a) x = NodeReply.logging x
  reply_of (Service.AgentRequest.node_remote_access a) x = NodeReply.remote_access x
  reply_of (Service.AgentRequest.node_observation a) x = NodeReply.observation x
  reply_of (Service.AgentRequest.node_version a) x = NodeReply.version x
  reply_of (Service.AgentRequest.node_enroll a) x = NodeReply.enroll x
  reply_of (Service.AgentRequest.node_package a) x = package_result x
  reply_of _ x = NodeReply.error ""

  -- The manager's payload.
  abbrev pub payload_of : Encoder Net → AgentRequest Net → Result Bytes ApiError
  payload_of encoder (Service.AgentRequest.allowlist a) = encoder.networks a
  payload_of encoder (Service.AgentRequest.blocklist a) = encoder.networks a
  payload_of encoder Service.AgentRequest.update_config = encoder.unit
  payload_of encoder (Service.AgentRequest.delete_customer_data a) = encoder.deletion a
  payload_of encoder (Service.AgentRequest.train_model a) = encoder.train_model a
  payload_of encoder (Service.AgentRequest.clone_model a) = encoder.clone_model a
  payload_of encoder (Service.AgentRequest.cancel_run a) = encoder.run_id a
  payload_of encoder (Service.AgentRequest.run_detector_once a) = encoder.detector_id a
  payload_of encoder (Service.AgentRequest.reload_filter_rule a) = encoder.rules a
  payload_of encoder (Service.AgentRequest.internal_network_list a) = encoder.networks a
  payload_of encoder Service.AgentRequest.echo_request = encoder.unit
  payload_of encoder (Service.AgentRequest.sampling_policy_list a) = encoder.policies a
  payload_of encoder (Service.AgentRequest.tor_exit_node_list a) = encoder.texts a
  payload_of encoder (Service.AgentRequest.trusted_domain_list a) = encoder.texts a
  payload_of encoder (Service.AgentRequest.trusted_user_agent_list a) = encoder.texts a
  payload_of encoder (Service.AgentRequest.node_service a) = encoder.service a
  payload_of encoder (Service.AgentRequest.node_network_interface a) = encoder.network_interface a
  payload_of encoder (Service.AgentRequest.node_hostname a) = encoder.hostname a
  payload_of encoder (Service.AgentRequest.node_time_sync a) = encoder.time_sync a
  payload_of encoder (Service.AgentRequest.node_logging a) = encoder.logging a
  payload_of encoder (Service.AgentRequest.node_remote_access a) = encoder.remote_access a
  payload_of encoder (Service.AgentRequest.node_observation a) = encoder.observation a
  payload_of encoder (Service.AgentRequest.node_version a) = encoder.version a
  payload_of encoder (Service.AgentRequest.node_enroll a) = encoder.enroll a
  payload_of encoder (Service.AgentRequest.node_package a) = encoder.package_request a
  payload_of encoder _ = encoder.unit

  -- The agent's method.
  abbrev pub method_of :
      {H : Type 0}
      → Handler Net H
      → (r : AgentRequest Net) → Sendable r
      → H
      → Answer (Response r) × H
  method_of handler (Service.AgentRequest.allowlist a) s h = handler.allowlist a h
  method_of handler (Service.AgentRequest.blocklist a) s h = handler.blocklist a h
  method_of handler Service.AgentRequest.update_config s h = handler.update_config h
  method_of handler (Service.AgentRequest.delete_customer_data a) s h =
      handler.delete_customer_data a h
  method_of handler (Service.AgentRequest.train_model a) s h = handler.train_model a h
  method_of handler (Service.AgentRequest.clone_model a) s h = handler.clone_model a h
  method_of handler (Service.AgentRequest.cancel_run a) s h = handler.cancel_run a h
  method_of handler (Service.AgentRequest.run_detector_once a) s h = handler.run_detector_once a h
  method_of handler (Service.AgentRequest.reload_filter_rule a) s h =
      handler.update_traffic_filter_rules a h
  method_of handler (Service.AgentRequest.internal_network_list a) s h =
      handler.internal_network_list a h
  method_of handler Service.AgentRequest.echo_request s h = (ok tt, h)
  method_of handler (Service.AgentRequest.sampling_policy_list a) s h =
      handler.sampling_policy_list a h
  method_of handler (Service.AgentRequest.tor_exit_node_list a) s h = handler.tor_exit_node_list a h
  method_of handler (Service.AgentRequest.trusted_domain_list a) s h =
      handler.trusted_domain_list a h
  method_of handler (Service.AgentRequest.trusted_user_agent_list a) s h =
      handler.trusted_user_agent_list a h
  method_of handler (Service.AgentRequest.node_service a) s h = handler.node_service a h
  method_of handler (Service.AgentRequest.node_network_interface a) s h =
      handler.node_network_interface a h
  method_of handler (Service.AgentRequest.node_hostname a) s h = handler.node_hostname a h
  method_of handler (Service.AgentRequest.node_time_sync a) s h = handler.node_time_sync a h
  method_of handler (Service.AgentRequest.node_logging a) s h = handler.node_logging a h
  method_of handler (Service.AgentRequest.node_remote_access a) s h = handler.node_remote_access a h
  method_of handler (Service.AgentRequest.node_observation a) s h = handler.node_observation a h
  method_of handler (Service.AgentRequest.node_version a) s h = handler.node_version a h
  method_of handler (Service.AgentRequest.node_enroll a) s h = handler.node_enroll a h
  method_of handler (Service.AgentRequest.node_package a) s h = handler.node_package a h
  method_of handler _ s h = absurd s
