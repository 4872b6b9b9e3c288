-- ===== src/Server/Api/Calls/Sides.antt =====
-- A call of server/api.rs on the manager: the method, and what it makes of the agent's reply.
use review_protocol.Prelude.{Result, ok, err, List, ◌∷◌}
use review_protocol.ProtocolError.{IoError, io_error, invalid_data, simple}
use review_protocol.Request.NodeHandler.{Answer, NodeReply, acknowledged, package_result}
use review_protocol.Request.Handle.Service.{AgentRequest}
use review_protocol.Request.Handle.Service as Service
use review_protocol.Types.Node.Config.{
  NodeServiceResponse, NodeNetworkInterfaceResponse, NodeHostnameResponse, NodeTimeSyncResponse,
  NodeLoggingResponse, NodeRemoteAccessResponse,
}
use review_protocol.Types.Node.Observation.{NodeObservationResponse, NodeVersionResponse}
use review_protocol.Types.Node.Package.{NodePackageResponse}
use review_protocol.Types.Node.Enroll.{NodeEnrollResponse}
use review_protocol.Server.Api.Common.{
  Encoder, Sends, send_allowlist, send_blocklist, send_config_update_cmd,
  send_delete_customer_data_cmd, send_train_model, send_clone_model, send_cancel_run,
  send_run_detector_once, send_filtering_rules, send_internal_network_list, send_ping,
  send_sampling_policies, send_tor_exit_node_list, send_trusted_domain_list,
  send_trusted_user_agent_list,
}
use review_protocol.Server.Api.NodeFamilies.{
  node_service, node_network_interface, node_hostname, node_time_sync, node_logging,
  node_remote_access, node_observation, node_version, node_enroll,
}
use review_protocol.Server.Api.NodeFamilies
use review_protocol.Server.Api.Calls.{Sendable, Response}

-- What `frame::recv` makes of the agent's first reply, by the type that the manager expects.
abbrev acknowledgement : List NodeReply → Result (Answer (Unit {0})) IoError
acknowledgement (acknowledged x ∷ rest) = ok x
acknowledgement _ = err (io_error invalid_data simple)

abbrev service_response : List NodeReply → Result (Answer NodeServiceResponse) IoError
service_response (NodeReply.service x ∷ rest) = ok x
service_response _ = err (io_error invalid_data simple)

abbrev network_interface_response :
    List NodeReply → Result (Answer NodeNetworkInterfaceResponse) IoError
network_interface_response (NodeReply.network_interface x ∷ rest) = ok x
network_interface_response _ = err (io_error invalid_data simple)

abbrev hostname_response : List NodeReply → Result (Answer NodeHostnameResponse) IoError
hostname_response (NodeReply.hostname x ∷ rest) = ok x
hostname_response _ = err (io_error invalid_data simple)

abbrev time_sync_response : List NodeReply → Result (Answer NodeTimeSyncResponse) IoError
time_sync_response (NodeReply.time_sync x ∷ rest) = ok x
time_sync_response _ = err (io_error invalid_data simple)

abbrev logging_response : List NodeReply → Result (Answer NodeLoggingResponse) IoError
logging_response (NodeReply.logging x ∷ rest) = ok x
logging_response _ = err (io_error invalid_data simple)

abbrev remote_access_response : List NodeReply → Result (Answer NodeRemoteAccessResponse) IoError
remote_access_response (NodeReply.remote_access x ∷ rest) = ok x
remote_access_response _ = err (io_error invalid_data simple)

abbrev observation_response : List NodeReply → Result (Answer NodeObservationResponse) IoError
observation_response (NodeReply.observation x ∷ rest) = ok x
observation_response _ = err (io_error invalid_data simple)

abbrev version_response : List NodeReply → Result (Answer NodeVersionResponse) IoError
version_response (NodeReply.version x ∷ rest) = ok x
version_response _ = err (io_error invalid_data simple)

abbrev enroll_response : List NodeReply → Result (Answer NodeEnrollResponse) IoError
enroll_response (NodeReply.enroll x ∷ rest) = ok x
enroll_response _ = err (io_error invalid_data simple)

abbrev package_response : List NodeReply → Result (Answer NodePackageResponse) IoError
package_response (package_result x ∷ rest) = ok x
package_response _ = err (io_error invalid_data simple)

module _ {Net : Type 0} where
  -- The answer that the manager's receive makes of the replies.
  abbrev pub received_of :
      (r : AgentRequest Net) → List NodeReply → Result (Answer (Response r)) IoError
  received_of (Service.AgentRequest.allowlist a) replies = acknowledgement replies
  received_of (Service.AgentRequest.blocklist a) replies = acknowledgement replies
  received_of Service.AgentRequest.update_config replies = acknowledgement replies
  received_of (Service.AgentRequest.delete_customer_data a) replies = acknowledgement replies
  received_of (Service.AgentRequest.train_model a) replies = acknowledgement replies
  received_of (Service.AgentRequest.clone_model a) replies = acknowledgement replies
  received_of (Service.AgentRequest.cancel_run a) replies = acknowledgement replies
  received_of (Service.AgentRequest.run_detector_once a) replies = acknowledgement replies
  received_of (Service.AgentRequest.reload_filter_rule a) replies = acknowledgement replies
  received_of (Service.AgentRequest.internal_network_list a) replies = acknowledgement replies
  received_of Service.AgentRequest.echo_request replies = acknowledgement replies
  received_of (Service.AgentRequest.sampling_policy_list a) replies = acknowledgement replies
  received_of (Service.AgentRequest.tor_exit_node_list a) replies = acknowledgement replies
  received_of (Service.AgentRequest.trusted_domain_list a) replies = acknowledgement replies
  received_of (Service.AgentRequest.trusted_user_agent_list a) replies = acknowledgement replies
  received_of (Service.AgentRequest.node_service a) replies = service_response replies
  received_of (Service.AgentRequest.node_network_interface a) replies =
      network_interface_response replies
  received_of (Service.AgentRequest.node_hostname a) replies = hostname_response replies
  received_of (Service.AgentRequest.node_time_sync a) replies = time_sync_response replies
  received_of (Service.AgentRequest.node_logging a) replies = logging_response replies
  received_of (Service.AgentRequest.node_remote_access a) replies = remote_access_response replies
  received_of (Service.AgentRequest.node_observation a) replies = observation_response replies
  received_of (Service.AgentRequest.node_version a) replies = version_response replies
  received_of (Service.AgentRequest.node_enroll a) replies = enroll_response replies
  received_of (Service.AgentRequest.node_package a) replies = package_response replies
  received_of _ replies = err (io_error invalid_data simple)

  -- The manager's method.
  abbrev pub send_of : Encoder Net → (r : AgentRequest Net) → Sendable r → Sends (Response r)
  send_of encoder (Service.AgentRequest.allowlist a) s = send_allowlist encoder a
  send_of encoder (Service.AgentRequest.blocklist a) s = send_blocklist encoder a
  send_of encoder Service.AgentRequest.update_config s = send_config_update_cmd encoder
  send_of encoder (Service.AgentRequest.delete_customer_data a) s =
      send_delete_customer_data_cmd encoder a
  send_of encoder (Service.AgentRequest.train_model a) s = send_train_model encoder a
  send_of encoder (Service.AgentRequest.clone_model a) s = send_clone_model encoder a
  send_of encoder (Service.AgentRequest.cancel_run a) s = send_cancel_run encoder a
  send_of encoder (Service.AgentRequest.run_detector_once a) s = send_run_detector_once encoder a
  send_of encoder (Service.AgentRequest.reload_filter_rule a) s = send_filtering_rules encoder a
  send_of encoder (Service.AgentRequest.internal_network_list a) s =
      send_internal_network_list encoder a
  send_of encoder Service.AgentRequest.echo_request s = send_ping encoder
  send_of encoder (Service.AgentRequest.sampling_policy_list a) s = send_sampling_policies encoder a
  send_of encoder (Service.AgentRequest.tor_exit_node_list a) s = send_tor_exit_node_list encoder a
  send_of encoder (Service.AgentRequest.trusted_domain_list a) s =
      send_trusted_domain_list encoder a
  send_of encoder (Service.AgentRequest.trusted_user_agent_list a) s =
      send_trusted_user_agent_list encoder a
  send_of encoder (Service.AgentRequest.node_service a) s = NodeFamilies.node_service encoder a
  send_of encoder (Service.AgentRequest.node_network_interface a) s =
      NodeFamilies.node_network_interface encoder a
  send_of encoder (Service.AgentRequest.node_hostname a) s = NodeFamilies.node_hostname encoder a
  send_of encoder (Service.AgentRequest.node_time_sync a) s = NodeFamilies.node_time_sync encoder a
  send_of encoder (Service.AgentRequest.node_logging a) s = NodeFamilies.node_logging encoder a
  send_of encoder (Service.AgentRequest.node_remote_access a) s =
      NodeFamilies.node_remote_access encoder a
  send_of encoder (Service.AgentRequest.node_observation a) s =
      NodeFamilies.node_observation encoder a
  send_of encoder (Service.AgentRequest.node_version a) s = NodeFamilies.node_version encoder a
  send_of encoder (Service.AgentRequest.node_enroll a) s = NodeFamilies.node_enroll encoder a
  send_of encoder (Service.AgentRequest.node_package a) s = NodeFamilies.node_package encoder a
  send_of encoder _ s = absurd s
