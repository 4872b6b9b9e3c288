-- ===== src/ServiceId/CommonIds.antt =====
-- service_id.rs: the identifiers of the common operations and of the engine.
use review_protocol.ServiceId.Defs.{ServiceId, new}

abbrev pub common_dns_start : ServiceId
common_dns_start = new "common" "dns_start"

abbrev pub common_dns_stop : ServiceId
common_dns_stop = new "common" "dns_stop"

abbrev pub common_reload_config : ServiceId
common_reload_config = new "common" "reload_config"

abbrev pub common_update_config : ServiceId
common_update_config = new "common" "update_config"

abbrev pub common_delete_customer_data : ServiceId
common_delete_customer_data = new "common" "delete_customer_data"

abbrev pub common_reload_ti : ServiceId
common_reload_ti = new "common" "reload_ti"

abbrev pub common_tor_exit_node_list : ServiceId
common_tor_exit_node_list = new "common" "tor_exit_node_list"

abbrev pub common_trusted_domain_list : ServiceId
common_trusted_domain_list = new "common" "trusted_domain_list"

abbrev pub common_sampling_policy_list : ServiceId
common_sampling_policy_list = new "common" "sampling_policy_list"

abbrev pub common_delete_sampling_policy : ServiceId
common_delete_sampling_policy = new "common" "delete_sampling_policy"

abbrev pub common_reload_filter_rule : ServiceId
common_reload_filter_rule = new "common" "reload_filter_rule"

abbrev pub common_internal_network_list : ServiceId
common_internal_network_list = new "common" "internal_network_list"

abbrev pub common_allowlist : ServiceId
common_allowlist = new "common" "allowlist"

abbrev pub common_blocklist : ServiceId
common_blocklist = new "common" "blocklist"

abbrev pub common_echo : ServiceId
common_echo = new "common" "echo"

abbrev pub common_trusted_user_agent_list : ServiceId
common_trusted_user_agent_list = new "common" "trusted_user_agent_list"

abbrev pub common_semi_supervised_models : ServiceId
common_semi_supervised_models = new "common" "semi_supervised_models"

abbrev pub common_renew_certificate : ServiceId
common_renew_certificate = new "common" "renew_certificate"

abbrev pub engine_train_model : ServiceId
engine_train_model = new "engine" "train_model"

abbrev pub engine_clone_model : ServiceId
engine_clone_model = new "engine" "clone_model"

abbrev pub engine_cancel_run : ServiceId
engine_cancel_run = new "engine" "cancel_run"

abbrev pub engine_run_detector_once : ServiceId
engine_run_detector_once = new "engine" "run_detector_once"
