-- ===== src/Server/Node.antt =====
-- `Node` of server/node.rs: the node families' methods on a handle that borrows the connection.
use review_protocol.Prelude.{Result, ok, err}
use review_protocol.ProtocolError.{IoError}
use review_protocol.Types.Node.Config.{
  NodeServiceRequest, NodeServiceResponse, NodeNetworkInterfaceRequest,
  NodeNetworkInterfaceResponse, NodeHostnameRequest, NodeHostnameResponse, NodeTimeSyncRequest,
  NodeTimeSyncResponse, NodeLoggingRequest, NodeLoggingResponse, NodeRemoteAccessRequest,
  NodeRemoteAccessResponse,
}
use review_protocol.Types.Node.Observation.{
  NodePowerRequest, NodePowerResponse, NodeObservationRequest, NodeObservationResponse,
  NodeVersionRequest, NodeVersionResponse,
}
use review_protocol.Types.Node.Package.{NodePackageRequest, NodePackageResponse}
use review_protocol.Types.Node.Enroll.{NodeEnrollRequest, NodeEnrollResponse}
use review_protocol.Types.Node.Observation
use review_protocol.Auth.{Authorizer, AuthorizerV2, PeerContext, AuthorizationContext}
use review_protocol.Server.Api.SendPackage.{AsyncRead}
use review_protocol.Server.Api.Install.{BiStream, Exchanged}
use review_protocol.Server.Api.Install
use review_protocol.Server.Api.Requests.{Stream, Requested, NodePowerOutcome}
use review_protocol.Server.Api.Common.{Encoder, encode_request, Sends}
use review_protocol.Server.Api.NodeFamilies
use review_protocol.Server.Api.NodeFamilies.{encode_package}

-- The `match` of `reboot` and `shutdown`, which forget the outcome.
unfoldable pub forget_outcome :
    Requested NodePowerOutcome NodePowerResponse → Requested (Unit {0}) NodePowerResponse
forget_outcome (ok outcome, bi) = (ok tt, bi)
forget_outcome (err e, bi) = (err e, bi)

module _ {Net : Type 0} (encoder : Encoder Net) where
  unfoldable pub service : NodeServiceRequest → Sends NodeServiceResponse
  unfolding NodeFamilies.node_service
  service req = NodeFamilies.node_service encoder req

  unfoldable pub network_interface :
      NodeNetworkInterfaceRequest → Sends NodeNetworkInterfaceResponse
  unfolding NodeFamilies.node_network_interface
  network_interface req = NodeFamilies.node_network_interface encoder req

  unfoldable pub hostname : NodeHostnameRequest → Sends NodeHostnameResponse
  unfolding NodeFamilies.node_hostname
  hostname req = NodeFamilies.node_hostname encoder req

  unfoldable pub time_sync : NodeTimeSyncRequest → Sends NodeTimeSyncResponse
  unfolding NodeFamilies.node_time_sync
  time_sync req = NodeFamilies.node_time_sync encoder req

  unfoldable pub logging : NodeLoggingRequest → Sends NodeLoggingResponse
  unfolding NodeFamilies.node_logging
  logging req = NodeFamilies.node_logging encoder req

  unfoldable pub remote_access : NodeRemoteAccessRequest → Sends NodeRemoteAccessResponse
  unfolding NodeFamilies.node_remote_access
  remote_access req = NodeFamilies.node_remote_access encoder req

  unfoldable pub observation : NodeObservationRequest → Sends NodeObservationResponse
  unfolding NodeFamilies.node_observation
  observation req = NodeFamilies.node_observation encoder req

  unfoldable pub version : NodeVersionRequest → Sends NodeVersionResponse
  unfolding NodeFamilies.node_version
  version req = NodeFamilies.node_version encoder req

  unfoldable pub enroll : NodeEnrollRequest → Sends NodeEnrollResponse
  unfolding NodeFamilies.node_enroll
  enroll req = NodeFamilies.node_enroll encoder req

  unfoldable pub package_request : NodePackageRequest → Sends NodePackageResponse
  unfolding NodeFamilies.node_package
  package_request req = NodeFamilies.node_package encoder req

  unfoldable pub power :
      NodePowerRequest
      → Result (Stream NodePowerResponse) IoError
      → Requested NodePowerOutcome NodePowerResponse
  unfolding NodeFamilies.node_power
  power req = NodeFamilies.node_power encoder req

  unfoldable pub reboot :
      Result (Stream NodePowerResponse) IoError → Requested (Unit {0}) NodePowerResponse
  unfolding power forget_outcome
  reboot opened = forget_outcome (power Observation.NodePowerRequest.reboot opened)

  unfoldable pub shutdown :
      Result (Stream NodePowerResponse) IoError → Requested (Unit {0}) NodePowerResponse
  unfolding power forget_outcome
  shutdown opened = forget_outcome (power Observation.NodePowerRequest.shutdown opened)

  unfoldable pub package_install :
      {S : Type 0} (pkg : AsyncRead S)
      → NodePackageRequest
      → Result BiStream IoError
      → S
      → Exchanged pkg
  unfolding Install.node_package_install encode_request
  package_install pkg req opened s =
      Install.node_package_install pkg (encode_package encoder) req opened s

  unfoldable pub service_authorized :
      NodeServiceRequest → PeerContext → Authorizer → Sends NodeServiceResponse
  unfolding NodeFamilies.node_service_authorized
  service_authorized req peer authorizer =
      NodeFamilies.node_service_authorized encoder req peer authorizer

  unfoldable pub network_interface_authorized :
      NodeNetworkInterfaceRequest → PeerContext → Authorizer → Sends NodeNetworkInterfaceResponse
  unfolding NodeFamilies.node_network_interface_authorized
  network_interface_authorized req peer authorizer =
      NodeFamilies.node_network_interface_authorized encoder req peer authorizer

  unfoldable pub hostname_authorized :
      NodeHostnameRequest → PeerContext → Authorizer → Sends NodeHostnameResponse
  unfolding NodeFamilies.node_hostname_authorized
  hostname_authorized req peer authorizer =
      NodeFamilies.node_hostname_authorized encoder req peer authorizer

  unfoldable pub time_sync_authorized :
      NodeTimeSyncRequest → PeerContext → Authorizer → Sends NodeTimeSyncResponse
  unfolding NodeFamilies.node_time_sync_authorized
  time_sync_authorized req peer authorizer =
      NodeFamilies.node_time_sync_authorized encoder req peer authorizer

  unfoldable pub logging_authorized :
      NodeLoggingRequest → PeerContext → Authorizer → Sends NodeLoggingResponse
  unfolding NodeFamilies.node_logging_authorized
  logging_authorized req peer authorizer =
      NodeFamilies.node_logging_authorized encoder req peer authorizer

  unfoldable pub remote_access_authorized :
      NodeRemoteAccessRequest → PeerContext → Authorizer → Sends NodeRemoteAccessResponse
  unfolding NodeFamilies.node_remote_access_authorized
  remote_access_authorized req peer authorizer =
      NodeFamilies.node_remote_access_authorized encoder req peer authorizer

  unfoldable pub observation_authorized :
      NodeObservationRequest → PeerContext → Authorizer → Sends NodeObservationResponse
  unfolding NodeFamilies.node_observation_authorized
  observation_authorized req peer authorizer =
      NodeFamilies.node_observation_authorized encoder req peer authorizer

  unfoldable pub version_authorized :
      NodeVersionRequest → PeerContext → Authorizer → Sends NodeVersionResponse
  unfolding NodeFamilies.node_version_authorized
  version_authorized req peer authorizer =
      NodeFamilies.node_version_authorized encoder req peer authorizer

  unfoldable pub enroll_authorized :
      NodeEnrollRequest → PeerContext → Authorizer → Sends NodeEnrollResponse
  unfolding NodeFamilies.node_enroll_authorized
  enroll_authorized req peer authorizer =
      NodeFamilies.node_enroll_authorized encoder req peer authorizer

  unfoldable pub package_authorized :
      NodePackageRequest → PeerContext → Authorizer → Sends NodePackageResponse
  unfolding NodeFamilies.node_package_authorized
  package_authorized req peer authorizer =
      NodeFamilies.node_package_authorized encoder req peer authorizer

  unfoldable pub power_authorized :
      NodePowerRequest
      → PeerContext
      → Authorizer
      → Result (Stream NodePowerResponse) IoError
      → Requested NodePowerOutcome NodePowerResponse
  unfolding NodeFamilies.node_power_authorized
  power_authorized req peer authorizer =
      NodeFamilies.node_power_authorized encoder req peer authorizer

  unfoldable pub reboot_authorized :
      PeerContext
      → Authorizer
      → Result (Stream NodePowerResponse) IoError
      → Requested (Unit {0}) NodePowerResponse
  unfolding power_authorized forget_outcome
  reboot_authorized peer authorizer opened =
      forget_outcome (power_authorized Observation.NodePowerRequest.reboot peer authorizer opened)

  unfoldable pub shutdown_authorized :
      PeerContext
      → Authorizer
      → Result (Stream NodePowerResponse) IoError
      → Requested (Unit {0}) NodePowerResponse
  unfolding power_authorized forget_outcome
  shutdown_authorized peer authorizer opened =
      forget_outcome (power_authorized Observation.NodePowerRequest.shutdown peer authorizer opened)

  unfoldable pub package_install_authorized :
      {S : Type 0} (pkg : AsyncRead S)
      → NodePackageRequest
      → PeerContext
      → Authorizer
      → Result BiStream IoError
      → S
      → Exchanged pkg
  unfolding Install.node_package_install_authorized encode_request
  package_install_authorized pkg req peer authorizer opened s =
      Install.node_package_install_authorized pkg peer authorizer (encode_package encoder) req
        opened s

  unfoldable pub service_with_context :
      NodeServiceRequest → AuthorizationContext → AuthorizerV2 → Sends NodeServiceResponse
  unfolding NodeFamilies.node_service_with_context
  service_with_context req ctx authorizer =
      NodeFamilies.node_service_with_context encoder req ctx authorizer

  unfoldable pub network_interface_with_context :
      NodeNetworkInterfaceRequest
      → AuthorizationContext
      → AuthorizerV2
      → Sends NodeNetworkInterfaceResponse
  unfolding NodeFamilies.node_network_interface_with_context
  network_interface_with_context req ctx authorizer =
      NodeFamilies.node_network_interface_with_context encoder req ctx authorizer

  unfoldable pub hostname_with_context :
      NodeHostnameRequest → AuthorizationContext → AuthorizerV2 → Sends NodeHostnameResponse
  unfolding NodeFamilies.node_hostname_with_context
  hostname_with_context req ctx authorizer =
      NodeFamilies.node_hostname_with_context encoder req ctx authorizer

  unfoldable pub time_sync_with_context :
      NodeTimeSyncRequest → AuthorizationContext → AuthorizerV2 → Sends NodeTimeSyncResponse
  unfolding NodeFamilies.node_time_sync_with_context
  time_sync_with_context req ctx authorizer =
      NodeFamilies.node_time_sync_with_context encoder req ctx authorizer

  unfoldable pub logging_with_context :
      NodeLoggingRequest → AuthorizationContext → AuthorizerV2 → Sends NodeLoggingResponse
  unfolding NodeFamilies.node_logging_with_context
  logging_with_context req ctx authorizer =
      NodeFamilies.node_logging_with_context encoder req ctx authorizer

  unfoldable pub remote_access_with_context :
      NodeRemoteAccessRequest → AuthorizationContext → AuthorizerV2 → Sends NodeRemoteAccessResponse
  unfolding NodeFamilies.node_remote_access_with_context
  remote_access_with_context req ctx authorizer =
      NodeFamilies.node_remote_access_with_context encoder req ctx authorizer

  unfoldable pub observation_with_context :
      NodeObservationRequest → AuthorizationContext → AuthorizerV2 → Sends NodeObservationResponse
  unfolding NodeFamilies.node_observation_with_context
  observation_with_context req ctx authorizer =
      NodeFamilies.node_observation_with_context encoder req ctx authorizer

  unfoldable pub version_with_context :
      NodeVersionRequest → AuthorizationContext → AuthorizerV2 → Sends NodeVersionResponse
  unfolding NodeFamilies.node_version_with_context
  version_with_context req ctx authorizer =
      NodeFamilies.node_version_with_context encoder req ctx authorizer

  unfoldable pub enroll_with_context :
      NodeEnrollRequest → AuthorizationContext → AuthorizerV2 → Sends NodeEnrollResponse
  unfolding NodeFamilies.node_enroll_with_context
  enroll_with_context req ctx authorizer =
      NodeFamilies.node_enroll_with_context encoder req ctx authorizer

  unfoldable pub package_with_context :
      NodePackageRequest → AuthorizationContext → AuthorizerV2 → Sends NodePackageResponse
  unfolding NodeFamilies.node_package_with_context
  package_with_context req ctx authorizer =
      NodeFamilies.node_package_with_context encoder req ctx authorizer

  unfoldable pub power_with_context :
      NodePowerRequest
      → AuthorizationContext
      → AuthorizerV2
      → Result (Stream NodePowerResponse) IoError
      → Requested NodePowerOutcome NodePowerResponse
  unfolding NodeFamilies.node_power_with_context
  power_with_context req ctx authorizer =
      NodeFamilies.node_power_with_context encoder req ctx authorizer

  unfoldable pub reboot_with_context :
      AuthorizationContext
      → AuthorizerV2
      → Result (Stream NodePowerResponse) IoError
      → Requested (Unit {0}) NodePowerResponse
  unfolding power_with_context forget_outcome
  reboot_with_context ctx authorizer opened =
      forget_outcome (power_with_context Observation.NodePowerRequest.reboot ctx authorizer opened)

  unfoldable pub shutdown_with_context :
      AuthorizationContext
      → AuthorizerV2
      → Result (Stream NodePowerResponse) IoError
      → Requested (Unit {0}) NodePowerResponse
  unfolding power_with_context forget_outcome
  shutdown_with_context ctx authorizer opened =
      forget_outcome
        (power_with_context Observation.NodePowerRequest.shutdown ctx authorizer opened)

  unfoldable pub package_install_with_context :
      {S : Type 0} (pkg : AsyncRead S)
      → NodePackageRequest
      → AuthorizationContext
      → AuthorizerV2
      → Result BiStream IoError
      → S
      → Exchanged pkg
  unfolding Install.node_package_install_with_context encode_request
  package_install_with_context pkg req ctx authorizer opened s =
      Install.node_package_install_with_context pkg ctx authorizer (encode_package encoder) req
        opened s
