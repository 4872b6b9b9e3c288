-- ===== src/ServiceId/Catalog.antt =====
-- service_id.rs: the list of all identifiers.
pub mod Laws
use review_protocol.Prelude.{List, [], ◌∷◌}
use review_protocol.ServiceId.Defs.{ServiceId}
use review_protocol.ServiceId.NodeIds.{
  node_service, node_network_interface, node_hostname, node_time_sync, node_logging,
  node_remote_access, node_power, node_observation, node_version, node_package, node_enroll,
  node_service_start, node_service_stop, node_service_status, node_service_restart,
  node_network_interface_list, node_network_interface_get, node_network_interface_set,
  node_network_interface_reset_config, node_network_interface_remove, node_hostname_get,
  node_hostname_set, node_time_sync_get, node_time_sync_set, node_time_sync_enable,
  node_time_sync_disable, node_time_sync_status, node_logging_get, node_logging_set,
  node_logging_clear, node_logging_restart, node_remote_access_get, node_remote_access_set,
  node_remote_access_restart, node_power_reboot, node_power_shutdown, node_power_graceful_reboot,
  node_power_graceful_shutdown, node_observation_process_list, node_observation_resource_usage,
  node_observation_uptime, node_version_get, node_version_set_os, node_version_set_product,
  node_package_install, node_package_remove, node_package_list, node_package_status,
  node_package_list_host_ports, node_enroll_register, node_enroll_deregister,
}
use review_protocol.ServiceId.CommonIds.{
  common_dns_start, common_dns_stop, common_reload_config, common_update_config,
  common_delete_customer_data, common_reload_ti, common_tor_exit_node_list,
  common_trusted_domain_list, common_sampling_policy_list, common_delete_sampling_policy,
  common_reload_filter_rule, common_internal_network_list, common_allowlist, common_blocklist,
  common_echo, common_trusted_user_agent_list, common_semi_supervised_models,
  common_renew_certificate, engine_train_model, engine_clone_model, engine_cancel_run,
  engine_run_detector_once,
}
use review_protocol.ServiceId.ServerIds.{
  server_customer_data_deletion_report, server_run_upload_model, server_run_report,
  server_run_report_active, server_detector_report_status, server_data_source_get,
  server_data_source_list, server_data_source_insert, server_model_get, server_model_get_names,
  server_model_insert, server_model_remove, server_model_update, server_model_get_pretrained,
  server_indicator_get, server_event_get_max_id_num, server_event_insert_labels,
  server_statistics_insert_column, server_statistics_insert_time_series, server_outlier_get,
  server_outlier_remove, server_outlier_update, server_cluster_update, server_label_get_db_patterns,
  server_certificate_renew, server_config_get, server_host_update_opened_ports,
  server_host_update_os_agents, server_list_trusted_domain, server_list_tor_exit_node,
  server_list_internal_network, server_list_allowlist, server_list_blocklist,
  server_list_trusted_user_agent, server_list_sampling_policy,
}

unfoldable pub all : List ServiceId
all =
    node_service ∷ node_network_interface ∷ node_hostname ∷ node_time_sync ∷ node_logging
    ∷ node_remote_access ∷ node_power ∷ node_observation ∷ node_version ∷ node_package ∷ node_enroll
    ∷ node_service_start ∷ node_service_stop ∷ node_service_status ∷ node_service_restart
    ∷ node_network_interface_list ∷ node_network_interface_get ∷ node_network_interface_set
    ∷ node_network_interface_reset_config ∷ node_network_interface_remove ∷ node_hostname_get
    ∷ node_hostname_set ∷ node_time_sync_get ∷ node_time_sync_set ∷ node_time_sync_enable
    ∷ node_time_sync_disable ∷ node_time_sync_status ∷ node_logging_get ∷ node_logging_set
    ∷ node_logging_clear ∷ node_logging_restart ∷ node_remote_access_get ∷ node_remote_access_set
    ∷ node_remote_access_restart ∷ node_power_reboot ∷ node_power_shutdown
    ∷ node_power_graceful_reboot ∷ node_power_graceful_shutdown ∷ node_observation_process_list
    ∷ node_observation_resource_usage ∷ node_observation_uptime ∷ node_version_get
    ∷ node_version_set_os ∷ node_version_set_product ∷ node_package_install ∷ node_package_remove
    ∷ node_package_list ∷ node_package_status ∷ node_package_list_host_ports ∷ node_enroll_register
    ∷ node_enroll_deregister ∷ common_dns_start ∷ common_dns_stop ∷ common_reload_config
    ∷ common_update_config ∷ common_delete_customer_data ∷ common_reload_ti
    ∷ common_tor_exit_node_list ∷ common_trusted_domain_list ∷ common_sampling_policy_list
    ∷ common_delete_sampling_policy ∷ common_reload_filter_rule ∷ common_internal_network_list
    ∷ common_allowlist ∷ common_blocklist ∷ common_echo ∷ common_trusted_user_agent_list
    ∷ common_semi_supervised_models ∷ common_renew_certificate ∷ engine_train_model
    ∷ engine_clone_model ∷ engine_cancel_run ∷ engine_run_detector_once
    ∷ server_customer_data_deletion_report ∷ server_run_upload_model ∷ server_run_report
    ∷ server_run_report_active ∷ server_detector_report_status ∷ server_data_source_get
    ∷ server_data_source_list ∷ server_data_source_insert ∷ server_model_get
    ∷ server_model_get_names ∷ server_model_insert ∷ server_model_remove ∷ server_model_update
    ∷ server_model_get_pretrained ∷ server_indicator_get ∷ server_event_get_max_id_num
    ∷ server_event_insert_labels ∷ server_statistics_insert_column
    ∷ server_statistics_insert_time_series ∷ server_outlier_get ∷ server_outlier_remove
    ∷ server_outlier_update ∷ server_cluster_update ∷ server_label_get_db_patterns
    ∷ server_certificate_renew ∷ server_config_get ∷ server_host_update_opened_ports
    ∷ server_host_update_os_agents ∷ server_list_trusted_domain ∷ server_list_tor_exit_node
    ∷ server_list_internal_network ∷ server_list_allowlist ∷ server_list_blocklist
    ∷ server_list_trusted_user_agent ∷ server_list_sampling_policy ∷ []
