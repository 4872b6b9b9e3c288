-- ===== src/ServiceId/ServerCodes.antt =====
-- service_id.rs: the identifier of each code that a manager serves.
pub mod Laws
use review_protocol.Prelude.{Option, none, some}
use review_protocol.ServiceId.Defs.{ServiceId}
use review_protocol.ServiceId.ServerIds.{
  server_certificate_renew, server_cluster_update, server_config_get,
  server_customer_data_deletion_report, server_data_source_get, server_data_source_insert,
  server_data_source_list, server_detector_report_status, server_event_get_max_id_num,
  server_event_insert_labels, server_host_update_opened_ports, server_host_update_os_agents,
  server_indicator_get, server_label_get_db_patterns, server_list_allowlist, server_list_blocklist,
  server_list_internal_network, server_list_sampling_policy, server_list_tor_exit_node,
  server_list_trusted_domain, server_list_trusted_user_agent, server_model_get,
  server_model_get_names, server_model_get_pretrained, server_model_insert, server_model_remove,
  server_model_update, server_outlier_get, server_outlier_remove, server_outlier_update,
  server_run_report, server_run_report_active, server_run_upload_model,
  server_statistics_insert_column, server_statistics_insert_time_series,
}
use review_protocol.Codes.Server.{RequestCode}

unfoldable pub from_server_request_code : RequestCode → Option ServiceId
from_server_request_code RequestCode.get_data_source = some server_data_source_get
from_server_request_code RequestCode.get_data_source_list = some server_data_source_list
from_server_request_code RequestCode.insert_data_source = some server_data_source_insert
from_server_request_code RequestCode.get_model = some server_model_get
from_server_request_code RequestCode.get_model_names = some server_model_get_names
from_server_request_code RequestCode.insert_model = some server_model_insert
from_server_request_code RequestCode.remove_model = some server_model_remove
from_server_request_code RequestCode.update_model = some server_model_update
from_server_request_code RequestCode.get_pretrained_model = some server_model_get_pretrained
from_server_request_code RequestCode.get_indicator = some server_indicator_get
from_server_request_code RequestCode.get_max_event_id_num = some server_event_get_max_id_num
from_server_request_code RequestCode.insert_event_labels = some server_event_insert_labels
from_server_request_code RequestCode.insert_column_statistics = some server_statistics_insert_column
from_server_request_code RequestCode.insert_time_series = some server_statistics_insert_time_series
from_server_request_code RequestCode.remove_outliers = some server_outlier_remove
from_server_request_code RequestCode.update_outliers = some server_outlier_update
from_server_request_code RequestCode.get_outliers = some server_outlier_get
from_server_request_code RequestCode.update_clusters = some server_cluster_update
from_server_request_code RequestCode.get_label_db_patterns = some server_label_get_db_patterns
from_server_request_code RequestCode.renew_certificate = some server_certificate_renew
from_server_request_code RequestCode.get_config = some server_config_get
from_server_request_code RequestCode.update_host_opened_ports = some server_host_update_opened_ports
from_server_request_code RequestCode.update_host_os_agents = some server_host_update_os_agents
from_server_request_code RequestCode.get_trusted_domain_list = some server_list_trusted_domain
from_server_request_code RequestCode.get_tor_exit_node_list = some server_list_tor_exit_node
from_server_request_code RequestCode.get_internal_network_list = some server_list_internal_network
from_server_request_code RequestCode.get_allowlist = some server_list_allowlist
from_server_request_code RequestCode.get_blocklist = some server_list_blocklist
from_server_request_code RequestCode.get_trusted_user_agent_list =
    some server_list_trusted_user_agent
from_server_request_code RequestCode.get_sampling_policy_list = some server_list_sampling_policy
from_server_request_code RequestCode.report_customer_data_deletion =
    some server_customer_data_deletion_report
from_server_request_code RequestCode.upload_run_model = some server_run_upload_model
from_server_request_code RequestCode.report_run = some server_run_report
from_server_request_code RequestCode.report_active_runs = some server_run_report_active
from_server_request_code RequestCode.report_detector_status = some server_detector_report_status
from_server_request_code RequestCode.unknown = none
