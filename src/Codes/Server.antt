-- ===== src/Codes/Server.antt =====
-- `RequestCode` of server.rs: the requests that a manager serves.
pub mod Laws
use review_protocol.Prelude.{ℕ, ◌==◌, if◌then◌else◌}

pub data RequestCode : Type 0 where
  get_data_source get_indicator get_max_event_id_num get_model get_model_names : RequestCode
  insert_column_statistics insert_model insert_time_series remove_model : RequestCode
  remove_outliers update_clusters update_model update_outliers : RequestCode
  insert_event_labels get_data_source_list get_label_db_patterns : RequestCode
  insert_data_source renew_certificate get_trusted_domain_list get_outliers : RequestCode
  get_tor_exit_node_list get_internal_network_list get_allowlist get_blocklist : RequestCode
  get_pretrained_model get_trusted_user_agent_list get_config : RequestCode
  update_host_opened_ports update_host_os_agents get_sampling_policy_list : RequestCode
  report_customer_data_deletion upload_run_model report_run report_active_runs : RequestCode
  report_detector_status unknown : RequestCode

-- `u32::from(code)`
unfoldable pub to_u32 : RequestCode → ℕ
to_u32 get_data_source = 0
to_u32 get_indicator = 1
to_u32 get_max_event_id_num = 2
to_u32 get_model = 3
to_u32 get_model_names = 4
to_u32 insert_column_statistics = 5
to_u32 insert_model = 6
to_u32 insert_time_series = 7
to_u32 remove_model = 8
to_u32 remove_outliers = 9
to_u32 update_clusters = 10
to_u32 update_model = 11
to_u32 update_outliers = 12
to_u32 insert_event_labels = 13
to_u32 get_data_source_list = 14
to_u32 get_label_db_patterns = 15
to_u32 insert_data_source = 20
to_u32 renew_certificate = 23
to_u32 get_trusted_domain_list = 24
to_u32 get_outliers = 25
to_u32 get_tor_exit_node_list = 26
to_u32 get_internal_network_list = 31
to_u32 get_allowlist = 32
to_u32 get_blocklist = 33
to_u32 get_pretrained_model = 34
to_u32 get_trusted_user_agent_list = 35
to_u32 get_config = 36
to_u32 update_host_opened_ports = 37
to_u32 update_host_os_agents = 38
to_u32 get_sampling_policy_list = 39
to_u32 report_customer_data_deletion = 40
to_u32 upload_run_model = 41
to_u32 report_run = 42
to_u32 report_active_runs = 43
to_u32 report_detector_status = 44
to_u32 unknown = 4294967295

-- `RequestCode::from_primitive(n)`: the listed codes, and `unknown` for every other number.
unfoldable pub from_primitive : ℕ → RequestCode
from_primitive n =
    if n == 0
    then get_data_source
    else if n == 1
    then get_indicator
    else if n == 2
    then get_max_event_id_num
    else if n == 3
    then get_model
    else if n == 4
    then get_model_names
    else if n == 5
    then insert_column_statistics
    else if n == 6
    then insert_model
    else if n == 7
    then insert_time_series
    else if n == 8
    then remove_model
    else if n == 9
    then remove_outliers
    else if n == 10
    then update_clusters
    else if n == 11
    then update_model
    else if n == 12
    then update_outliers
    else if n == 13
    then insert_event_labels
    else if n == 14
    then get_data_source_list
    else if n == 15
    then get_label_db_patterns
    else if n == 20
    then insert_data_source
    else if n == 23
    then renew_certificate
    else if n == 24
    then get_trusted_domain_list
    else if n == 25
    then get_outliers
    else if n == 26
    then get_tor_exit_node_list
    else if n == 31
    then get_internal_network_list
    else if n == 32
    then get_allowlist
    else if n == 33
    then get_blocklist
    else if n == 34
    then get_pretrained_model
    else if n == 35
    then get_trusted_user_agent_list
    else if n == 36
    then get_config
    else if n == 37
    then update_host_opened_ports
    else if n == 38
    then update_host_os_agents
    else if n == 39
    then get_sampling_policy_list
    else if n == 40
    then report_customer_data_deletion
    else if n == 41
    then upload_run_model
    else if n == 42
    then report_run
    else if n == 43
    then report_active_runs
    else if n == 44
    then report_detector_status
    else unknown
