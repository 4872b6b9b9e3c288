-- ===== src/ServiceId/Requests.antt =====
-- service_id.rs: the method identifier of each typed node request.
pub mod Laws
use review_protocol.ServiceId.Defs.{ServiceId}
use review_protocol.ServiceId.NodeIds.{
  node_service_start, node_service_stop, node_service_status, node_service_restart,
  node_network_interface_list, node_network_interface_get, node_network_interface_set,
  node_network_interface_reset_config, node_network_interface_remove, node_hostname_get,
  node_hostname_set, node_time_sync_get, node_time_sync_set, node_time_sync_enable,
  node_time_sync_disable, node_time_sync_status, node_logging_get, node_logging_set,
  node_logging_clear, node_logging_restart, node_remote_access_get, node_remote_access_set,
  node_remote_access_restart, node_power_reboot, node_power_shutdown, node_power_graceful_reboot,
  node_power_graceful_shutdown, node_observation_process_list, node_observation_resource_usage,
  node_observation_uptime, node_version_get, node_version_set_os, node_version_set_product,
  node_package_install, node_package_remove, node_package_list, node_package_status,
  node_package_list_host_ports, node_enroll_register, node_enroll_deregister,
}
use review_protocol.Types.Node.Config.{
  NodeServiceRequest, NodeNetworkInterfaceRequest, NodeHostnameRequest, NodeTimeSyncRequest,
  NodeLoggingRequest, NodeRemoteAccessRequest,
}
use review_protocol.Types.Node.Observation.{
  NodePowerRequest, NodeObservationRequest, NodeVersionRequest,
}
use review_protocol.Types.Node.Package.{NodePackageRequest}
use review_protocol.Types.Node.Enroll.{NodeEnrollRequest}

-- `NodeServiceRequest::service_id`
unfoldable pub node_service_service_id : NodeServiceRequest → ServiceId
node_service_service_id (NodeServiceRequest.start _) = node_service_start
node_service_service_id (NodeServiceRequest.stop _) = node_service_stop
node_service_service_id (NodeServiceRequest.status _) = node_service_status
node_service_service_id (NodeServiceRequest.restart _) = node_service_restart

-- `NodeNetworkInterfaceRequest::service_id`
unfoldable pub node_network_interface_service_id : NodeNetworkInterfaceRequest → ServiceId
node_network_interface_service_id (NodeNetworkInterfaceRequest.list _) = node_network_interface_list
node_network_interface_service_id (NodeNetworkInterfaceRequest.get _) = node_network_interface_get
node_network_interface_service_id (NodeNetworkInterfaceRequest.set _ _) = node_network_interface_set
node_network_interface_service_id (NodeNetworkInterfaceRequest.reset_config _) =
    node_network_interface_reset_config
node_network_interface_service_id (NodeNetworkInterfaceRequest.remove _ _) =
    node_network_interface_remove

-- `NodeHostnameRequest::service_id`
unfoldable pub node_hostname_service_id : NodeHostnameRequest → ServiceId
node_hostname_service_id NodeHostnameRequest.get = node_hostname_get
node_hostname_service_id (NodeHostnameRequest.set _) = node_hostname_set

-- `NodeTimeSyncRequest::service_id`
unfoldable pub node_time_sync_service_id : NodeTimeSyncRequest → ServiceId
node_time_sync_service_id NodeTimeSyncRequest.get = node_time_sync_get
node_time_sync_service_id (NodeTimeSyncRequest.set _) = node_time_sync_set
node_time_sync_service_id NodeTimeSyncRequest.enable = node_time_sync_enable
node_time_sync_service_id NodeTimeSyncRequest.disable = node_time_sync_disable
node_time_sync_service_id NodeTimeSyncRequest.status = node_time_sync_status

-- `NodeLoggingRequest::service_id`
unfoldable pub node_logging_service_id : NodeLoggingRequest → ServiceId
node_logging_service_id NodeLoggingRequest.get = node_logging_get
node_logging_service_id (NodeLoggingRequest.set _) = node_logging_set
node_logging_service_id NodeLoggingRequest.clear = node_logging_clear
node_logging_service_id NodeLoggingRequest.restart = node_logging_restart

-- `NodeRemoteAccessRequest::service_id`
unfoldable pub node_remote_access_service_id : NodeRemoteAccessRequest → ServiceId
node_remote_access_service_id NodeRemoteAccessRequest.get = node_remote_access_get
node_remote_access_service_id (NodeRemoteAccessRequest.set _) = node_remote_access_set
node_remote_access_service_id NodeRemoteAccessRequest.restart = node_remote_access_restart

-- `NodePowerRequest::service_id`
unfoldable pub node_power_service_id : NodePowerRequest → ServiceId
node_power_service_id NodePowerRequest.reboot = node_power_reboot
node_power_service_id NodePowerRequest.shutdown = node_power_shutdown
node_power_service_id NodePowerRequest.graceful_reboot = node_power_graceful_reboot
node_power_service_id NodePowerRequest.graceful_shutdown = node_power_graceful_shutdown

-- `NodeObservationRequest::service_id`
unfoldable pub node_observation_service_id : NodeObservationRequest → ServiceId
node_observation_service_id NodeObservationRequest.process_list = node_observation_process_list
node_observation_service_id NodeObservationRequest.resource_usage = node_observation_resource_usage
node_observation_service_id NodeObservationRequest.uptime = node_observation_uptime

-- `NodeVersionRequest::service_id`
unfoldable pub node_version_service_id : NodeVersionRequest → ServiceId
node_version_service_id NodeVersionRequest.get = node_version_get
node_version_service_id (NodeVersionRequest.set_os_version _) = node_version_set_os
node_version_service_id (NodeVersionRequest.set_product_version _) = node_version_set_product

-- `NodePackageRequest::service_id`
unfoldable pub node_package_service_id : NodePackageRequest → ServiceId
node_package_service_id (NodePackageRequest.install _) = node_package_install
node_package_service_id (NodePackageRequest.remove _ _ _) = node_package_remove
node_package_service_id NodePackageRequest.list_installed = node_package_list
node_package_service_id (NodePackageRequest.status _ _) = node_package_status
node_package_service_id NodePackageRequest.list_host_ports = node_package_list_host_ports

-- `NodeEnrollRequest::service_id`
unfoldable pub node_enroll_service_id : NodeEnrollRequest → ServiceId
node_enroll_service_id (NodeEnrollRequest.register _ _ _ _ _ _ _) = node_enroll_register
node_enroll_service_id (NodeEnrollRequest.deregister _ _ _ _) = node_enroll_deregister
