-- ===== src/Server/Api/NodeFamilies.antt =====
-- server/api.rs: the methods that send a request of a node family, without authorization, with an
-- authorizer, and with a context for the newer authorizer.
pub mod Laws
use review_protocol.Prelude.{Result, ok, err, none}
use review_protocol.ProtocolError.{IoError}
use review_protocol.Wire.{Bytes}
use review_protocol.Codes.Client.{RequestCode}
use review_protocol.Types.Node.Config.{
  NodeServiceRequest, NodeServiceResponse, NodeNetworkInterfaceRequest,
  NodeNetworkInterfaceResponse, NodeHostnameRequest, NodeHostnameResponse, NodeTimeSyncRequest,
  NodeTimeSyncResponse, NodeLoggingRequest, NodeLoggingResponse, NodeRemoteAccessRequest,
  NodeRemoteAccessResponse,
}
use review_protocol.Types.Node.Observation.{
  NodePowerRequest, NodePowerResponse, NodeObservationRequest, NodeObservationResponse,
  NodeVersionRequest, NodeVersionResponse,
}
use review_protocol.Types.Node.Package.{NodePackageRequest, NodePackageResponse}
use review_protocol.Types.Node.Enroll.{NodeEnrollRequest, NodeEnrollResponse}
use review_protocol.ServiceId.Requests.{
  node_service_service_id, node_network_interface_service_id, node_hostname_service_id,
  node_time_sync_service_id, node_logging_service_id, node_remote_access_service_id,
  node_power_service_id, node_observation_service_id, node_version_service_id,
  node_package_service_id, node_enroll_service_id,
}
use review_protocol.Auth.{Authorizer, AuthorizerV2, PeerContext, AuthorizationContext}
use review_protocol.Server.Api.Errors.{ApiError}
use review_protocol.Server.Api.Install.{reject_install}
use review_protocol.Server.Api.Requests.{
  Stream, Requested, send_request, send_request_authorized, send_request_authorized_with_context,
  if_permitted, NodePowerOutcome,
}
use review_protocol.Server.Api.Requests
use review_protocol.Server.Api.Common.{Encoder, encode_request, Sends}

-- `reject_install(&req)?` before a request.
unfoldable pub unless_rejected :
    {A T : Type 0} → Result (Unit {0}) ApiError → Requested A T → Requested A T
unless_rejected (ok u) x = x
unless_rejected (err e) x = (err e, none)

module _ {Net : Type 0} (encoder : Encoder Net) where
  abbrev encode_power : NodePowerRequest → Result Bytes ApiError
  encode_power req = encode_request encoder RequestCode.node_power (encoder.power req)

  abbrev pub encode_package : NodePackageRequest → Result Bytes ApiError
  encode_package req = encode_request encoder RequestCode.node_package (encoder.package_request req)

  unfoldable pub node_service : NodeServiceRequest → Sends NodeServiceResponse
  unfolding encode_request send_request
  node_service req =
      send_request (encode_request encoder RequestCode.node_service (encoder.service req))

  unfoldable pub node_network_interface :
      NodeNetworkInterfaceRequest → Sends NodeNetworkInterfaceResponse
  unfolding encode_request send_request
  node_network_interface req =
      send_request
        (encode_request encoder RequestCode.node_network_interface (encoder.network_interface req))

  unfoldable pub node_hostname : NodeHostnameRequest → Sends NodeHostnameResponse
  unfolding encode_request send_request
  node_hostname req =
      send_request (encode_request encoder RequestCode.node_hostname (encoder.hostname req))

  unfoldable pub node_time_sync : NodeTimeSyncRequest → Sends NodeTimeSyncResponse
  unfolding encode_request send_request
  node_time_sync req =
      send_request (encode_request encoder RequestCode.node_time_sync (encoder.time_sync req))

  unfoldable pub node_logging : NodeLoggingRequest → Sends NodeLoggingResponse
  unfolding encode_request send_request
  node_logging req =
      send_request (encode_request encoder RequestCode.node_logging (encoder.logging req))

  unfoldable pub node_remote_access : NodeRemoteAccessRequest → Sends NodeRemoteAccessResponse
  unfolding encode_request send_request
  node_remote_access req =
      send_request
        (encode_request encoder RequestCode.node_remote_access (encoder.remote_access req))

  unfoldable pub node_observation : NodeObservationRequest → Sends NodeObservationResponse
  unfolding encode_request send_request
  node_observation req =
      send_request (encode_request encoder RequestCode.node_observation (encoder.observation req))

  unfoldable pub node_version : NodeVersionRequest → Sends NodeVersionResponse
  unfolding encode_request send_request
  node_version req =
      send_request (encode_request encoder RequestCode.node_version (encoder.version req))

  unfoldable pub node_enroll : NodeEnrollRequest → Sends NodeEnrollResponse
  unfolding encode_request send_request
  node_enroll req =
      send_request (encode_request encoder RequestCode.node_enroll (encoder.enroll req))

  unfoldable pub node_power :
      NodePowerRequest
      → Result (Stream NodePowerResponse) IoError
      → Requested NodePowerOutcome NodePowerResponse
  unfolding encode_request Requests.node_power
  node_power req = Requests.node_power encode_power req

  unfoldable pub node_package : NodePackageRequest → Sends NodePackageResponse
  unfolding encode_request send_request reject_install unless_rejected
  node_package req opened =
      unless_rejected (reject_install req) (send_request (encode_package req) opened)

  unfoldable pub node_service_authorized :
      NodeServiceRequest → PeerContext → Authorizer → Sends NodeServiceResponse
  unfolding encode_request send_request_authorized
  node_service_authorized req peer authorizer opened =
      send_request_authorized
        (encode_request encoder RequestCode.node_service (encoder.service req)) opened
        (node_service_service_id req) peer authorizer

  unfoldable pub node_network_interface_authorized :
      NodeNetworkInterfaceRequest → PeerContext → Authorizer → Sends NodeNetworkInterfaceResponse
  unfolding encode_request send_request_authorized
  node_network_interface_authorized req peer authorizer opened =
      send_request_authorized
        (encode_request encoder RequestCode.node_network_interface (encoder.network_interface req))
        opened (node_network_interface_service_id req) peer authorizer

  unfoldable pub node_hostname_authorized :
      NodeHostnameRequest → PeerContext → Authorizer → Sends NodeHostnameResponse
  unfolding encode_request send_request_authorized
  node_hostname_authorized req peer authorizer opened =
      send_request_authorized
        (encode_request encoder RequestCode.node_hostname (encoder.hostname req)) opened
        (node_hostname_service_id req) peer authorizer

  unfoldable pub node_time_sync_authorized :
      NodeTimeSyncRequest → PeerContext → Authorizer → Sends NodeTimeSyncResponse
  unfolding encode_request send_request_authorized
  node_time_sync_authorized req peer authorizer opened =
      send_request_authorized
        (encode_request encoder RequestCode.node_time_sync (encoder.time_sync req)) opened
        (node_time_sync_service_id req) peer authorizer

  unfoldable pub node_logging_authorized :
      NodeLoggingRequest → PeerContext → Authorizer → Sends NodeLoggingResponse
  unfolding encode_request send_request_authorized
  node_logging_authorized req peer authorizer opened =
      send_request_authorized
        (encode_request encoder RequestCode.node_logging (encoder.logging req)) opened
        (node_logging_service_id req) peer authorizer

  unfoldable pub node_remote_access_authorized :
      NodeRemoteAccessRequest → PeerContext → Authorizer → Sends NodeRemoteAccessResponse
  unfolding encode_request send_request_authorized
  node_remote_access_authorized req peer authorizer opened =
      send_request_authorized
        (encode_request encoder RequestCode.node_remote_access (encoder.remote_access req)) opened
        (node_remote_access_service_id req) peer authorizer

  unfoldable pub node_observation_authorized :
      NodeObservationRequest → PeerContext → Authorizer → Sends NodeObservationResponse
  unfolding encode_request send_request_authorized
  node_observation_authorized req peer authorizer opened =
      send_request_authorized
        (encode_request encoder RequestCode.node_observation (encoder.observation req)) opened
        (node_observation_service_id req) peer authorizer

  unfoldable pub node_version_authorized :
      NodeVersionRequest → PeerContext → Authorizer → Sends NodeVersionResponse
  unfolding encode_request send_request_authorized
  node_version_authorized req peer authorizer opened =
      send_request_authorized
        (encode_request encoder RequestCode.node_version (encoder.version req)) opened
        (node_version_service_id req) peer authorizer

  unfoldable pub node_enroll_authorized :
      NodeEnrollRequest → PeerContext → Authorizer → Sends NodeEnrollResponse
  unfolding encode_request send_request_authorized
  node_enroll_authorized req peer authorizer opened =
      send_request_authorized (encode_request encoder RequestCode.node_enroll (encoder.enroll req))
        opened (node_enroll_service_id req) peer authorizer

  unfoldable pub node_power_authorized :
      NodePowerRequest
      → PeerContext
      → Authorizer
      → Result (Stream NodePowerResponse) IoError
      → Requested NodePowerOutcome NodePowerResponse
  unfolding encode_request Requests.node_power if_permitted
  node_power_authorized req peer authorizer opened =
      if_permitted (authorizer.authorize peer (node_power_service_id req))
        (Requests.node_power encode_power req opened)

  unfoldable pub node_package_authorized :
      NodePackageRequest → PeerContext → Authorizer → Sends NodePackageResponse
  unfolding encode_request send_request_authorized reject_install unless_rejected
  node_package_authorized req peer authorizer opened = unless_rejected (reject_install req) (
      send_request_authorized (encode_package req) opened (node_package_service_id req) peer
        authorizer)

  unfoldable pub node_service_with_context :
      NodeServiceRequest → AuthorizationContext → AuthorizerV2 → Sends NodeServiceResponse
  unfolding encode_request send_request_authorized_with_context
  node_service_with_context req ctx authorizer opened =
      send_request_authorized_with_context
        (encode_request encoder RequestCode.node_service (encoder.service req)) opened
        (node_service_service_id req) ctx authorizer

  unfoldable pub node_network_interface_with_context :
      NodeNetworkInterfaceRequest
      → AuthorizationContext
      → AuthorizerV2
      → Sends NodeNetworkInterfaceResponse
  unfolding encode_request send_request_authorized_with_context
  node_network_interface_with_context req ctx authorizer opened =
      send_request_authorized_with_context
        (encode_request encoder RequestCode.node_network_interface (encoder.network_interface req))
        opened (node_network_interface_service_id req) ctx authorizer

  unfoldable pub node_hostname_with_context :
      NodeHostnameRequest → AuthorizationContext → AuthorizerV2 → Sends NodeHostnameResponse
  unfolding encode_request send_request_authorized_with_context
  node_hostname_with_context req ctx authorizer opened =
      send_request_authorized_with_context
        (encode_request encoder RequestCode.node_hostname (encoder.hostname req)) opened
        (node_hostname_service_id req) ctx authorizer

  unfoldable pub node_time_sync_with_context :
      NodeTimeSyncRequest → AuthorizationContext → AuthorizerV2 → Sends NodeTimeSyncResponse
  unfolding encode_request send_request_authorized_with_context
  node_time_sync_with_context req ctx authorizer opened =
      send_request_authorized_with_context
        (encode_request encoder RequestCode.node_time_sync (encoder.time_sync req)) opened
        (node_time_sync_service_id req) ctx authorizer

  unfoldable pub node_logging_with_context :
      NodeLoggingRequest → AuthorizationContext → AuthorizerV2 → Sends NodeLoggingResponse
  unfolding encode_request send_request_authorized_with_context
  node_logging_with_context req ctx authorizer opened =
      send_request_authorized_with_context
        (encode_request encoder RequestCode.node_logging (encoder.logging req)) opened
        (node_logging_service_id req) ctx authorizer

  unfoldable pub node_remote_access_with_context :
      NodeRemoteAccessRequest → AuthorizationContext → AuthorizerV2 → Sends NodeRemoteAccessResponse
  unfolding encode_request send_request_authorized_with_context
  node_remote_access_with_context req ctx authorizer opened =
      send_request_authorized_with_context
        (encode_request encoder RequestCode.node_remote_access (encoder.remote_access req)) opened
        (node_remote_access_service_id req) ctx authorizer

  unfoldable pub node_observation_with_context :
      NodeObservationRequest → AuthorizationContext → AuthorizerV2 → Sends NodeObservationResponse
  unfolding encode_request send_request_authorized_with_context
  node_observation_with_context req ctx authorizer opened =
      send_request_authorized_with_context
        (encode_request encoder RequestCode.node_observation (encoder.observation req)) opened
        (node_observation_service_id req) ctx authorizer

  unfoldable pub node_version_with_context :
      NodeVersionRequest → AuthorizationContext → AuthorizerV2 → Sends NodeVersionResponse
  unfolding encode_request send_request_authorized_with_context
  node_version_with_context req ctx authorizer opened =
      send_request_authorized_with_context
        (encode_request encoder RequestCode.node_version (encoder.version req)) opened
        (node_version_service_id req) ctx authorizer

  unfoldable pub node_enroll_with_context :
      NodeEnrollRequest → AuthorizationContext → AuthorizerV2 → Sends NodeEnrollResponse
  unfolding encode_request send_request_authorized_with_context
  node_enroll_with_context req ctx authorizer opened =
      send_request_authorized_with_context
        (encode_request encoder RequestCode.node_enroll (encoder.enroll req)) opened
        (node_enroll_service_id req) ctx authorizer

  unfoldable pub node_power_with_context :
      NodePowerRequest
      → AuthorizationContext
      → AuthorizerV2
      → Result (Stream NodePowerResponse) IoError
      → Requested NodePowerOutcome NodePowerResponse
  unfolding encode_request Requests.node_power if_permitted
  node_power_with_context req ctx authorizer opened =
      if_permitted (authorizer.authorize_with_context ctx (node_power_service_id req))
        (Requests.node_power encode_power req opened)

  unfoldable pub node_package_with_context :
      NodePackageRequest → AuthorizationContext → AuthorizerV2 → Sends NodePackageResponse
  unfolding encode_request send_request_authorized_with_context reject_install unless_rejected
  node_package_with_context req ctx authorizer opened = unless_rejected (reject_install req) (
      send_request_authorized_with_context (encode_package req) opened (node_package_service_id req)
        ctx authorizer)
