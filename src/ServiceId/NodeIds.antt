-- ===== src/ServiceId/NodeIds.antt =====
-- service_id.rs: the identifiers of the node families, and of their methods.
use review_protocol.ServiceId.Defs.{ServiceId, new}

abbrev pub node_service : ServiceId
node_service = new "node.service" ""

abbrev pub node_network_interface : ServiceId
node_network_interface = new "node.network_interface" ""

abbrev pub node_hostname : ServiceId
node_hostname = new "node.hostname" ""

abbrev pub node_time_sync : ServiceId
node_time_sync = new "node.time_sync" ""

abbrev pub node_logging : ServiceId
node_logging = new "node.logging" ""

abbrev pub node_remote_access : ServiceId
node_remote_access = new "node.remote_access" ""

abbrev pub node_power : ServiceId
node_power = new "node.power" ""

abbrev pub node_observation : ServiceId
node_observation = new "node.observation" ""

abbrev pub node_version : ServiceId
node_version = new "node.version" ""

abbrev pub node_package : ServiceId
node_package = new "node.package" ""

abbrev pub node_enroll : ServiceId
node_enroll = new "node.enroll" ""

abbrev pub node_service_start : ServiceId
node_service_start = new "node.service" "start"

abbrev pub node_service_stop : ServiceId
node_service_stop = new "node.service" "stop"

abbrev pub node_service_status : ServiceId
node_service_status = new "node.service" "status"

abbrev pub node_service_restart : ServiceId
node_service_restart = new "node.service" "restart"

abbrev pub node_network_interface_list : ServiceId
node_network_interface_list = new "node.network_interface" "list"

abbrev pub node_network_interface_get : ServiceId
node_network_interface_get = new "node.network_interface" "get"

abbrev pub node_network_interface_set : ServiceId
node_network_interface_set = new "node.network_interface" "set"

abbrev pub node_network_interface_reset_config : ServiceId
node_network_interface_reset_config = new "node.network_interface" "reset_config"

abbrev pub node_network_interface_remove : ServiceId
node_network_interface_remove = new "node.network_interface" "remove"

abbrev pub node_hostname_get : ServiceId
node_hostname_get = new "node.hostname" "get"

abbrev pub node_hostname_set : ServiceId
node_hostname_set = new "node.hostname" "set"

abbrev pub node_time_sync_get : ServiceId
node_time_sync_get = new "node.time_sync" "get"

abbrev pub node_time_sync_set : ServiceId
node_time_sync_set = new "node.time_sync" "set"

abbrev pub node_time_sync_enable : ServiceId
node_time_sync_enable = new "node.time_sync" "enable"

abbrev pub node_time_sync_disable : ServiceId
node_time_sync_disable = new "node.time_sync" "disable"

abbrev pub node_time_sync_status : ServiceId
node_time_sync_status = new "node.time_sync" "status"

abbrev pub node_logging_get : ServiceId
node_logging_get = new "node.logging" "get"

abbrev pub node_logging_set : ServiceId
node_logging_set = new "node.logging" "set"

abbrev pub node_logging_clear : ServiceId
node_logging_clear = new "node.logging" "clear"

abbrev pub node_logging_restart : ServiceId
node_logging_restart = new "node.logging" "restart"

abbrev pub node_remote_access_get : ServiceId
node_remote_access_get = new "node.remote_access" "get"

abbrev pub node_remote_access_set : ServiceId
node_remote_access_set = new "node.remote_access" "set"

abbrev pub node_remote_access_restart : ServiceId
node_remote_access_restart = new "node.remote_access" "restart"

abbrev pub node_power_reboot : ServiceId
node_power_reboot = new "node.power" "reboot"

abbrev pub node_power_shutdown : ServiceId
node_power_shutdown = new "node.power" "shutdown"

abbrev pub node_power_graceful_reboot : ServiceId
node_power_graceful_reboot = new "node.power" "graceful_reboot"

abbrev pub node_power_graceful_shutdown : ServiceId
node_power_graceful_shutdown = new "node.power" "graceful_shutdown"

abbrev pub node_observation_process_list : ServiceId
node_observation_process_list = new "node.observation" "process_list"

abbrev pub node_observation_resource_usage : ServiceId
node_observation_resource_usage = new "node.observation" "resource_usage"

abbrev pub node_observation_uptime : ServiceId
node_observation_uptime = new "node.observation" "uptime"

abbrev pub node_version_get : ServiceId
node_version_get = new "node.version" "get"

abbrev pub node_version_set_os : ServiceId
node_version_set_os = new "node.version" "set_os_version"

abbrev pub node_version_set_product : ServiceId
node_version_set_product = new "node.version" "set_product_version"

abbrev pub node_package_install : ServiceId
node_package_install = new "node.package" "install"

abbrev pub node_package_remove : ServiceId
node_package_remove = new "node.package" "remove"

abbrev pub node_package_list : ServiceId
node_package_list = new "node.package" "list"

abbrev pub node_package_status : ServiceId
node_package_status = new "node.package" "status"

abbrev pub node_package_list_host_ports : ServiceId
node_package_list_host_ports = new "node.package" "list_host_ports"

abbrev pub node_enroll_register : ServiceId
node_enroll_register = new "node.enroll" "register"

abbrev pub node_enroll_deregister : ServiceId
node_enroll_deregister = new "node.enroll" "deregister"
