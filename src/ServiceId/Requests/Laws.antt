-- ===== src/ServiceId/Requests/Laws.antt =====
-- service_id.rs: the identifiers of node requests lie in the families that their codes name.
use review_protocol.Prelude.{◌≡◌, refl, false, some}
use review_protocol.Codes.Client.{RequestCode}
use review_protocol.ServiceId.Defs.{ServiceId, new, is_family}
use review_protocol.ServiceId.ClientCodes.{from_client_request_code}
use review_protocol.ServiceId.Requests.{
  node_service_service_id, node_network_interface_service_id, node_hostname_service_id,
  node_time_sync_service_id, node_logging_service_id, node_remote_access_service_id,
  node_power_service_id, node_observation_service_id, node_version_service_id,
  node_package_service_id, node_enroll_service_id,
}
use review_protocol.Types.Node.Config.{
  NodeServiceRequest, NodeNetworkInterfaceRequest, NodeHostnameRequest, NodeTimeSyncRequest,
  NodeLoggingRequest, NodeRemoteAccessRequest,
}
use review_protocol.Types.Node.Observation.{
  NodePowerRequest, NodeObservationRequest, NodeVersionRequest,
}
use review_protocol.Types.Node.Package.{NodePackageRequest}
use review_protocol.Types.Node.Enroll.{NodeEnrollRequest}

-- `id` names a method of the family that the code stands for.
abbrev pub MethodOf : RequestCode → ServiceId → Type 0
MethodOf c id = (from_client_request_code c ≡ some (new id.family "")) × (is_family id ≡ false)

node_service-MethodOf :
    (req : NodeServiceRequest) → MethodOf RequestCode.node_service (node_service_service_id req)
unfolding from_client_request_code is_family node_service_service_id
node_service-MethodOf (NodeServiceRequest.start _) = (refl, refl)
node_service-MethodOf _ = (refl, refl)

node_network_interface-MethodOf :
    (req : NodeNetworkInterfaceRequest)
    → MethodOf RequestCode.node_network_interface (node_network_interface_service_id req)
unfolding from_client_request_code is_family node_network_interface_service_id
node_network_interface-MethodOf (NodeNetworkInterfaceRequest.list _) = (refl, refl)
node_network_interface-MethodOf _ = (refl, refl)

node_hostname-MethodOf :
    (req : NodeHostnameRequest) → MethodOf RequestCode.node_hostname (node_hostname_service_id req)
unfolding from_client_request_code is_family node_hostname_service_id
node_hostname-MethodOf NodeHostnameRequest.get = (refl, refl)
node_hostname-MethodOf _ = (refl, refl)

node_time_sync-MethodOf :
    (req : NodeTimeSyncRequest)
    → MethodOf RequestCode.node_time_sync (node_time_sync_service_id req)
unfolding from_client_request_code is_family node_time_sync_service_id
node_time_sync-MethodOf NodeTimeSyncRequest.get = (refl, refl)
node_time_sync-MethodOf _ = (refl, refl)

node_logging-MethodOf :
    (req : NodeLoggingRequest) → MethodOf RequestCode.node_logging (node_logging_service_id req)
unfolding from_client_request_code is_family node_logging_service_id
node_logging-MethodOf NodeLoggingRequest.get = (refl, refl)
node_logging-MethodOf _ = (refl, refl)

node_remote_access-MethodOf :
    (req : NodeRemoteAccessRequest)
    → MethodOf RequestCode.node_remote_access (node_remote_access_service_id req)
unfolding from_client_request_code is_family node_remote_access_service_id
node_remote_access-MethodOf NodeRemoteAccessRequest.get = (refl, refl)
node_remote_access-MethodOf _ = (refl, refl)

node_power-MethodOf :
    (req : NodePowerRequest) → MethodOf RequestCode.node_power (node_power_service_id req)
unfolding from_client_request_code is_family node_power_service_id
node_power-MethodOf NodePowerRequest.reboot = (refl, refl)
node_power-MethodOf _ = (refl, refl)

node_observation-MethodOf :
    (req : NodeObservationRequest)
    → MethodOf RequestCode.node_observation (node_observation_service_id req)
unfolding from_client_request_code is_family node_observation_service_id
node_observation-MethodOf NodeObservationRequest.process_list = (refl, refl)
node_observation-MethodOf _ = (refl, refl)

node_version-MethodOf :
    (req : NodeVersionRequest) → MethodOf RequestCode.node_version (node_version_service_id req)
unfolding from_client_request_code is_family node_version_service_id
node_version-MethodOf NodeVersionRequest.get = (refl, refl)
node_version-MethodOf _ = (refl, refl)

node_package-MethodOf :
    (req : NodePackageRequest) → MethodOf RequestCode.node_package (node_package_service_id req)
unfolding from_client_request_code is_family node_package_service_id
node_package-MethodOf (NodePackageRequest.install _) = (refl, refl)
node_package-MethodOf _ = (refl, refl)

node_enroll-MethodOf :
    (req : NodeEnrollRequest) → MethodOf RequestCode.node_enroll (node_enroll_service_id req)
unfolding from_client_request_code is_family node_enroll_service_id
node_enroll-MethodOf (NodeEnrollRequest.register _ _ _ _ _ _ _) = (refl, refl)
node_enroll-MethodOf _ = (refl, refl)

-- The identifier that a policy sees for a typed node request is a method, not a family, and its
-- family is the one that the request's code maps to, for every request of the eleven families.
pub request_ids_lie_in_their_family :
    ((req : NodeServiceRequest) → MethodOf RequestCode.node_service (node_service_service_id req))
    × ((req : NodeNetworkInterfaceRequest)
        → MethodOf RequestCode.node_network_interface (node_network_interface_service_id req))
    × ((req : NodeHostnameRequest)
        → MethodOf RequestCode.node_hostname (node_hostname_service_id req))
    × ((req : NodeTimeSyncRequest)
        → MethodOf RequestCode.node_time_sync (node_time_sync_service_id req))
    × ((req : NodeLoggingRequest) → MethodOf RequestCode.node_logging (node_logging_service_id req))
    × ((req : NodeRemoteAccessRequest)
        → MethodOf RequestCode.node_remote_access (node_remote_access_service_id req))
    × ((req : NodePowerRequest) → MethodOf RequestCode.node_power (node_power_service_id req))
    × ((req : NodeObservationRequest)
        → MethodOf RequestCode.node_observation (node_observation_service_id req))
    × ((req : NodeVersionRequest) → MethodOf RequestCode.node_version (node_version_service_id req))
    × ((req : NodePackageRequest) → MethodOf RequestCode.node_package (node_package_service_id req))
    × ((req : NodeEnrollRequest) → MethodOf RequestCode.node_enroll (node_enroll_service_id req))
request_ids_lie_in_their_family = (
  node_service-MethodOf, node_network_interface-MethodOf, node_hostname-MethodOf,
  node_time_sync-MethodOf, node_logging-MethodOf, node_remote_access-MethodOf, node_power-MethodOf,
  node_observation-MethodOf, node_version-MethodOf, node_package-MethodOf, node_enroll-MethodOf,
)
