-- ===== src/ServiceId/ClientCodes.antt =====
-- service_id.rs: the identifier of each code that an agent serves.
pub mod Laws
use review_protocol.Prelude.{Option, none, some}
use review_protocol.ServiceId.Defs.{ServiceId}
use review_protocol.ServiceId.CommonIds.{
  common_allowlist, common_blocklist, common_delete_customer_data, common_delete_sampling_policy,
  common_dns_start, common_dns_stop, common_echo, common_internal_network_list,
  common_reload_config, common_reload_filter_rule, common_reload_ti, common_sampling_policy_list,
  common_semi_supervised_models, common_tor_exit_node_list, common_trusted_domain_list,
  common_trusted_user_agent_list, common_update_config, engine_cancel_run, engine_clone_model,
  engine_run_detector_once, engine_train_model,
}
use review_protocol.ServiceId.NodeIds.{
  node_enroll, node_hostname, node_logging, node_network_interface, node_observation,
  node_observation_process_list, node_observation_resource_usage, node_package, node_power,
  node_power_reboot, node_power_shutdown, node_remote_access, node_service, node_time_sync,
  node_version,
}
use review_protocol.Codes.Client.{RequestCode}

unfoldable pub from_client_request_code : RequestCode → Option ServiceId
from_client_request_code RequestCode.dns_start = some common_dns_start
from_client_request_code RequestCode.dns_stop = some common_dns_stop
from_client_request_code RequestCode.reboot = some node_power_reboot
from_client_request_code RequestCode.reload_config = some common_reload_config
from_client_request_code RequestCode.reload_ti = some common_reload_ti
from_client_request_code RequestCode.resource_usage = some node_observation_resource_usage
from_client_request_code RequestCode.tor_exit_node_list = some common_tor_exit_node_list
from_client_request_code RequestCode.sampling_policy_list = some common_sampling_policy_list
from_client_request_code RequestCode.reload_filter_rule = some common_reload_filter_rule
from_client_request_code RequestCode.update_config = some common_update_config
from_client_request_code RequestCode.delete_customer_data = some common_delete_customer_data
from_client_request_code RequestCode.delete_sampling_policy = some common_delete_sampling_policy
from_client_request_code RequestCode.internal_network_list = some common_internal_network_list
from_client_request_code RequestCode.allowlist = some common_allowlist
from_client_request_code RequestCode.blocklist = some common_blocklist
from_client_request_code RequestCode.echo_request = some common_echo
from_client_request_code RequestCode.trusted_user_agent_list = some common_trusted_user_agent_list
from_client_request_code RequestCode.trusted_domain_list = some common_trusted_domain_list
from_client_request_code RequestCode.process_list = some node_observation_process_list
from_client_request_code RequestCode.semi_supervised_models = some common_semi_supervised_models
from_client_request_code RequestCode.shutdown = some node_power_shutdown
from_client_request_code RequestCode.node_service = some node_service
from_client_request_code RequestCode.node_network_interface = some node_network_interface
from_client_request_code RequestCode.node_hostname = some node_hostname
from_client_request_code RequestCode.node_time_sync = some node_time_sync
from_client_request_code RequestCode.node_logging = some node_logging
from_client_request_code RequestCode.node_remote_access = some node_remote_access
from_client_request_code RequestCode.node_power = some node_power
from_client_request_code RequestCode.node_observation = some node_observation
from_client_request_code RequestCode.node_version = some node_version
from_client_request_code RequestCode.node_package = some node_package
from_client_request_code RequestCode.node_enroll = some node_enroll
from_client_request_code RequestCode.train_model = some engine_train_model
from_client_request_code RequestCode.clone_model = some engine_clone_model
from_client_request_code RequestCode.cancel_run = some engine_cancel_run
from_client_request_code RequestCode.run_detector_once = some engine_run_detector_once
from_client_request_code RequestCode.unknown = none
