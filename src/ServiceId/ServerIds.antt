-- ===== src/ServiceId/ServerIds.antt =====
-- service_id.rs: the identifiers of the operations that a server offers.
use review_protocol.ServiceId.Defs.{ServiceId, new}

abbrev pub server_data_source_get : ServiceId
server_data_source_get = new "server.data_source" "get"

abbrev pub server_data_source_list : ServiceId
server_data_source_list = new "server.data_source" "list"

abbrev pub server_data_source_insert : ServiceId
server_data_source_insert = new "server.data_source" "insert"

abbrev pub server_model_get : ServiceId
server_model_get = new "server.model" "get"

abbrev pub server_model_get_names : ServiceId
server_model_get_names = new "server.model" "get_names"

abbrev pub server_model_insert : ServiceId
server_model_insert = new "server.model" "insert"

abbrev pub server_model_remove : ServiceId
server_model_remove = new "server.model" "remove"

abbrev pub server_model_update : ServiceId
server_model_update = new "server.model" "update"

abbrev pub server_model_get_pretrained : ServiceId
server_model_get_pretrained = new "server.model" "get_pretrained"

abbrev pub server_indicator_get : ServiceId
server_indicator_get = new "server.indicator" "get"

abbrev pub server_event_get_max_id_num : ServiceId
server_event_get_max_id_num = new "server.event" "get_max_id_num"

abbrev pub server_event_insert_labels : ServiceId
server_event_insert_labels = new "server.event" "insert_labels"

abbrev pub server_statistics_insert_column : ServiceId
server_statistics_insert_column = new "server.statistics" "insert_column"

abbrev pub server_statistics_insert_time_series : ServiceId
server_statistics_insert_time_series = new "server.statistics" "insert_time_series"

abbrev pub server_outlier_get : ServiceId
server_outlier_get = new "server.outlier" "get"

abbrev pub server_outlier_remove : ServiceId
server_outlier_remove = new "server.outlier" "remove"

abbrev pub server_outlier_update : ServiceId
server_outlier_update = new "server.outlier" "update"

abbrev pub server_cluster_update : ServiceId
server_cluster_update = new "server.cluster" "update"

abbrev pub server_label_get_db_patterns : ServiceId
server_label_get_db_patterns = new "server.label" "get_db_patterns"

abbrev pub server_certificate_renew : ServiceId
server_certificate_renew = new "server.certificate" "renew"

abbrev pub server_config_get : ServiceId
server_config_get = new "server.config" "get"

abbrev pub server_host_update_opened_ports : ServiceId
server_host_update_opened_ports = new "server.host" "update_opened_ports"

abbrev pub server_host_update_os_agents : ServiceId
server_host_update_os_agents = new "server.host" "update_os_agents"

abbrev pub server_list_trusted_domain : ServiceId
server_list_trusted_domain = new "server.list" "trusted_domain"

abbrev pub server_list_tor_exit_node : ServiceId
server_list_tor_exit_node = new "server.list" "tor_exit_node"

abbrev pub server_list_internal_network : ServiceId
server_list_internal_network = new "server.list" "internal_network"

abbrev pub server_list_allowlist : ServiceId
server_list_allowlist = new "server.list" "allowlist"

abbrev pub server_list_blocklist : ServiceId
server_list_blocklist = new "server.list" "blocklist"

abbrev pub server_list_trusted_user_agent : ServiceId
server_list_trusted_user_agent = new "server.list" "trusted_user_agent"

abbrev pub server_list_sampling_policy : ServiceId
server_list_sampling_policy = new "server.list" "sampling_policy"

abbrev pub server_customer_data_deletion_report : ServiceId
server_customer_data_deletion_report = new "server.customer_data_deletion" "report"

abbrev pub server_run_upload_model : ServiceId
server_run_upload_model = new "server.run" "upload_model"

abbrev pub server_run_report : ServiceId
server_run_report = new "server.run" "report"

abbrev pub server_run_report_active : ServiceId
server_run_report_active = new "server.run" "report_active"

abbrev pub server_detector_report_status : ServiceId
server_detector_report_status = new "server.detector" "report_status"
