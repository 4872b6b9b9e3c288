-- ===== src/Server/Api/NodeFamilies/Laws.antt =====
-- server/api.rs: the two authorizing forms of the node families' methods.
use review_protocol.Prelude.{◌≡◌, ap, Result}
use review_protocol.ProtocolError.{IoError}
use review_protocol.Wire.{Bytes}
use review_protocol.ServiceId.{ServiceId}
use review_protocol.ServiceId.Requests.{node_power_service_id, node_package_service_id}
use review_protocol.Auth.{Authorizer, PeerContext, adapter, from_peer_context}
use review_protocol.Auth.Laws.{to_peer_context-from_peer_context}
use review_protocol.Types.Node.Config.{
  NodeServiceRequest, NodeServiceResponse, NodeNetworkInterfaceRequest,
  NodeNetworkInterfaceResponse, NodeHostnameRequest, NodeHostnameResponse, NodeTimeSyncRequest,
  NodeTimeSyncResponse, NodeLoggingRequest, NodeLoggingResponse, NodeRemoteAccessRequest,
  NodeRemoteAccessResponse,
}
use review_protocol.Types.Node.Observation.{
  NodePowerRequest, NodePowerResponse, NodeObservationRequest, NodeObservationResponse,
  NodeVersionRequest, NodeVersionResponse,
}
use review_protocol.Types.Node.Package.{NodePackageRequest, NodePackageResponse}
use review_protocol.Types.Node.Enroll.{NodeEnrollRequest, NodeEnrollResponse}
use review_protocol.Codes.Client.{RequestCode}
use review_protocol.Server.Api.Errors.{ApiError}
use review_protocol.Server.Api.Install.{reject_install}
use review_protocol.Server.Api.Requests.{
  Stream, send_request, send_request_authorized, send_request_authorized_with_context, if_permitted,
}
use review_protocol.Server.Api.Requests
use review_protocol.Server.Api.Common.{Encoder, encode_request}
use review_protocol.Server.Api.NodeFamilies.{
  unless_rejected, node_service_authorized, node_service_with_context,
  node_network_interface_authorized, node_network_interface_with_context, node_hostname_authorized,
  node_hostname_with_context, node_time_sync_authorized, node_time_sync_with_context,
  node_logging_authorized, node_logging_with_context, node_remote_access_authorized,
  node_remote_access_with_context, node_power_authorized, node_power_with_context,
  node_observation_authorized, node_observation_with_context, node_version_authorized,
  node_version_with_context, node_package_authorized, node_package_with_context,
  node_enroll_authorized, node_enroll_with_context,
}

module _ {Net : Type 0} (encoder : Encoder Net) (p : PeerContext) (authorizer : Authorizer) where
  same-verdict :
      {T : Type 0} (encoded : Result Bytes ApiError) (opened : Result (Stream T) IoError)
      (id : ServiceId)
      → send_request_authorized_with_context encoded opened id
          (from_peer_context p)
          (adapter authorizer)
        ≡ send_request_authorized encoded opened id p authorizer
  unfolding send_request_authorized_with_context send_request_authorized adapter
  same-verdict encoded opened id =
      ap (λ q. if_permitted (authorizer.authorize q id) (send_request encoded opened))
        (to_peer_context-from_peer_context p)

  -- The two authorizing forms of a node method agree in every family: with the context that is made
  -- of the peer, and the authorizer in the adapter, the `_with_context` method gives the same result
  -- and leaves the same stream as the `_authorized` method with the authorizer itself, whatever the
  -- request, the authorizer's verdict and the connection are.
  pub authorizing_forms_agree :
      ((req : NodeServiceRequest) (opened : Result (Stream NodeServiceResponse) IoError)
        → node_service_with_context encoder req (from_peer_context p) (adapter authorizer) opened
          ≡ node_service_authorized encoder req p authorizer opened)
      × ((req : NodeNetworkInterfaceRequest)
            (opened : Result (Stream NodeNetworkInterfaceResponse) IoError)
          → node_network_interface_with_context encoder req
              (from_peer_context p)
              (adapter authorizer)
              opened
            ≡ node_network_interface_authorized encoder req p authorizer opened)
      × ((req : NodeHostnameRequest) (opened : Result (Stream NodeHostnameResponse) IoError)
          → node_hostname_with_context encoder req (from_peer_context p) (adapter authorizer) opened
            ≡ node_hostname_authorized encoder req p authorizer opened)
      × ((req : NodeTimeSyncRequest) (opened : Result (Stream NodeTimeSyncResponse) IoError)
          → node_time_sync_with_context encoder req
              (from_peer_context p)
              (adapter authorizer)
              opened
            ≡ node_time_sync_authorized encoder req p authorizer opened)
      × ((req : NodeLoggingRequest) (opened : Result (Stream NodeLoggingResponse) IoError)
          → node_logging_with_context encoder req (from_peer_context p) (adapter authorizer) opened
            ≡ node_logging_authorized encoder req p authorizer opened)
      × ((req : NodeRemoteAccessRequest) (opened : Result (Stream NodeRemoteAccessResponse) IoError)
          → node_remote_access_with_context encoder req
              (from_peer_context p)
              (adapter authorizer)
              opened
            ≡ node_remote_access_authorized encoder req p authorizer opened)
      × ((req : NodePowerRequest) (opened : Result (Stream NodePowerResponse) IoError)
          → node_power_with_context encoder req (from_peer_context p) (adapter authorizer) opened
            ≡ node_power_authorized encoder req p authorizer opened)
      × ((req : NodeObservationRequest) (opened : Result (Stream NodeObservationResponse) IoError)
          → node_observation_with_context encoder req
              (from_peer_context p)
              (adapter authorizer)
              opened
            ≡ node_observation_authorized encoder req p authorizer opened)
      × ((req : NodeVersionRequest) (opened : Result (Stream NodeVersionResponse) IoError)
          → node_version_with_context encoder req (from_peer_context p) (adapter authorizer) opened
            ≡ node_version_authorized encoder req p authorizer opened)
      × ((req : NodePackageRequest) (opened : Result (Stream NodePackageResponse) IoError)
          → node_package_with_context encoder req (from_peer_context p) (adapter authorizer) opened
            ≡ node_package_authorized encoder req p authorizer opened)
      × ((req : NodeEnrollRequest) (opened : Result (Stream NodeEnrollResponse) IoError)
          → node_enroll_with_context encoder req (from_peer_context p) (adapter authorizer) opened
            ≡ node_enroll_authorized encoder req p authorizer opened)
  unfolding adapter node_service_authorized node_service_with_context
      node_network_interface_authorized node_network_interface_with_context node_hostname_authorized
      node_hostname_with_context node_time_sync_authorized node_time_sync_with_context
      node_logging_authorized node_logging_with_context node_remote_access_authorized
      node_remote_access_with_context node_power_authorized node_power_with_context
      node_observation_authorized node_observation_with_context node_version_authorized
      node_version_with_context node_package_authorized node_package_with_context
      node_enroll_authorized node_enroll_with_context
  authorizing_forms_agree = (
    λ req opened. same-verdict _ opened _,
    λ req opened. same-verdict _ opened _,
    λ req opened. same-verdict _ opened _,
    λ req opened. same-verdict _ opened _,
    λ req opened. same-verdict _ opened _,
    λ req opened. same-verdict _ opened _,
    λ req opened.
        ap
          (λ q. if_permitted (authorizer.authorize q (node_power_service_id req)) (
            Requests.node_power
              (λ r. encode_request encoder RequestCode.node_power (encoder.power r)) req opened))
          (to_peer_context-from_peer_context p),
    λ req opened. same-verdict _ opened _,
    λ req opened. same-verdict _ opened _,
    λ req opened.
        ap (unless_rejected (reject_install req))
          (same-verdict _ opened (node_package_service_id req)),
    λ req opened. same-verdict _ opened _,
  )
