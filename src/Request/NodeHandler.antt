-- ===== src/Request/NodeHandler.antt =====
-- `HandlerError` and `NodeHandler` of request.rs: what an agent's application implements, with what
-- the agent answers, and the decoding of requests, which oinq and bincode provide.
use review_protocol.Types.Shared.{ResourceUsage, Process}
use review_protocol.Prelude.{List, ℕ, String, Bool, true, false, Result, err}
use review_protocol.ProtocolError.{IoError, ProtocolErrorKind, of_io_error}
use review_protocol.Wire.{Bytes}
use review_protocol.Types.Node.Config.{
  NodeServiceRequest, NodeServiceResponse, NodeNetworkInterfaceRequest,
  NodeNetworkInterfaceResponse, NodeHostnameRequest, NodeHostnameResponse, NodeTimeSyncRequest,
  NodeTimeSyncResponse, NodeLoggingRequest, NodeLoggingResponse, NodeRemoteAccessRequest,
  NodeRemoteAccessResponse,
}
use review_protocol.Types.Node.Observation.{
  NodePowerRequest, NodePowerResponse, NodeObservationRequest, NodeObservationResponse,
  NodeVersionRequest, NodeVersionResponse, graceful_reboot, graceful_shutdown,
}
use review_protocol.Types.Node.Package.{NodePackageRequest, NodePackageResponse, InstallPreflight}
use review_protocol.Types.Node.Enroll.{NodeEnrollRequest, NodeEnrollResponse}
use review_protocol.Request.Installer.{Installer, finish}

pub data HandlerError : Type 0 where
  recv_error send_error : IoError → HandlerError

-- `HandlerError::kind`
unfoldable pub handler_error_kind : HandlerError → ProtocolErrorKind
handler_error_kind (recv_error e) = of_io_error e
handler_error_kind (send_error e) = ProtocolErrorKind.other

unfoldable pub node_power_expects_response : NodePowerRequest → Bool
node_power_expects_response graceful_reboot = true
node_power_expects_response graceful_shutdown = true
node_power_expects_response _ = false

-- The answer of a handler method.
abbrev pub Answer : Type 0 → Type 0
Answer A = Result A String

-- `trait NodeHandler`: each method takes the handler's state and returns the new one. The method
-- `node_package_install` runs on the reader that it is lent.
pub record NodeHandler (H : Type 0) : Type 0 where
  pub node_service : NodeServiceRequest → H → Answer NodeServiceResponse × H
  pub node_network_interface :
      NodeNetworkInterfaceRequest → H → Answer NodeNetworkInterfaceResponse × H
  pub node_hostname : NodeHostnameRequest → H → Answer NodeHostnameResponse × H
  pub node_time_sync : NodeTimeSyncRequest → H → Answer NodeTimeSyncResponse × H
  pub node_logging : NodeLoggingRequest → H → Answer NodeLoggingResponse × H
  pub node_remote_access : NodeRemoteAccessRequest → H → Answer NodeRemoteAccessResponse × H
  pub node_power : NodePowerRequest → H → Answer NodePowerResponse × H
  pub node_observation : NodeObservationRequest → H → Answer NodeObservationResponse × H
  pub node_version : NodeVersionRequest → H → Answer NodeVersionResponse × H
  pub node_package : NodePackageRequest → H → Answer NodePackageResponse × H
  pub node_package_install_preflight : NodePackageRequest → H → Answer InstallPreflight × H
  pub node_package_install : NodePackageRequest → H → Installer H
  pub node_enroll : NodeEnrollRequest → H → Answer NodeEnrollResponse × H

-- `Err("not supported".to_string())`
abbrev pub unsupported : {A H : Type 0} → H → Answer A × H
unsupported h = (err "not supported", h)

-- The default methods of the trait.
unfoldable pub default_handler : {H : Type 0} → NodeHandler H
default_handler = record {
  node_service = λ r h. unsupported h;
  node_network_interface = λ r h. unsupported h;
  node_hostname = λ r h. unsupported h;
  node_time_sync = λ r h. unsupported h;
  node_logging = λ r h. unsupported h;
  node_remote_access = λ r h. unsupported h;
  node_power = λ r h. unsupported h;
  node_observation = λ r h. unsupported h;
  node_version = λ r h. unsupported h;
  node_package = λ r h. unsupported h;
  node_package_install_preflight = λ r h. unsupported h;
  node_package_install = λ r h. finish (err "not supported") h;
  node_enroll = λ r h. unsupported h;
}

-- What an agent sends: the answer to a request by its family, the verdict on an install, an error
-- text by `oinq::message::send_err`, or the answer to a flat request of `handle`.
pub data NodeReply : Type 0 where
  service : Answer NodeServiceResponse → NodeReply
  network_interface : Answer NodeNetworkInterfaceResponse → NodeReply
  hostname : Answer NodeHostnameResponse → NodeReply
  time_sync : Answer NodeTimeSyncResponse → NodeReply
  logging : Answer NodeLoggingResponse → NodeReply
  remote_access : Answer NodeRemoteAccessResponse → NodeReply
  power : Answer NodePowerResponse → NodeReply
  observation : Answer NodeObservationResponse → NodeReply
  version : Answer NodeVersionResponse → NodeReply
  preflight : Answer InstallPreflight → NodeReply
  package_result : Answer NodePackageResponse → NodeReply
  enroll : Answer NodeEnrollResponse → NodeReply
  error : String → NodeReply
  acknowledged : Answer (Unit {0}) → NodeReply
  usage : Answer (String × ResourceUsage) → NodeReply
  processes : Answer (List Process) → NodeReply

-- What oinq and bincode make of bytes: `split_request` is the part of `recv_request_raw` behind
-- the receive of the frame, the others are `parse_args` at each request type.
pub record NodeCodec : Type 0 where
  pub split_request : Bytes → Result (ℕ × Bytes) IoError
  pub parse_service : Bytes → Result NodeServiceRequest IoError
  pub parse_network_interface : Bytes → Result NodeNetworkInterfaceRequest IoError
  pub parse_hostname : Bytes → Result NodeHostnameRequest IoError
  pub parse_time_sync : Bytes → Result NodeTimeSyncRequest IoError
  pub parse_logging : Bytes → Result NodeLoggingRequest IoError
  pub parse_remote_access : Bytes → Result NodeRemoteAccessRequest IoError
  pub parse_power : Bytes → Result NodePowerRequest IoError
  pub parse_observation : Bytes → Result NodeObservationRequest IoError
  pub parse_version : Bytes → Result NodeVersionRequest IoError
  pub parse_package : Bytes → Result NodePackageRequest IoError
  pub parse_enroll : Bytes → Result NodeEnrollRequest IoError
