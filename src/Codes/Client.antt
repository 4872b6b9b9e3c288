-- ===== src/Codes/Client.antt =====
-- `RequestCode` of client.rs: the requests that an agent serves.
pub mod Laws
use review_protocol.Prelude.{ℕ, ◌==◌, if◌then◌else◌}

pub data RequestCode : Type 0 where
  dns_start dns_stop reboot reload_config reload_ti resource_usage : RequestCode
  tor_exit_node_list sampling_policy_list reload_filter_rule update_config : RequestCode
  delete_sampling_policy internal_network_list allowlist blocklist echo_request : RequestCode
  trusted_user_agent_list trusted_domain_list process_list : RequestCode
  semi_supervised_models shutdown delete_customer_data node_service : RequestCode
  node_network_interface node_hostname node_time_sync node_logging : RequestCode
  node_remote_access node_power node_observation node_version node_package : RequestCode
  node_enroll train_model clone_model cancel_run run_detector_once unknown : RequestCode

-- `u32::from(code)`
unfoldable pub to_u32 : RequestCode → ℕ
to_u32 dns_start = 1
to_u32 dns_stop = 2
to_u32 reboot = 4
to_u32 reload_config = 6
to_u32 reload_ti = 5
to_u32 resource_usage = 7
to_u32 tor_exit_node_list = 8
to_u32 sampling_policy_list = 9
to_u32 reload_filter_rule = 10
to_u32 update_config = 12
to_u32 delete_sampling_policy = 13
to_u32 internal_network_list = 14
to_u32 allowlist = 15
to_u32 blocklist = 16
to_u32 echo_request = 17
to_u32 trusted_user_agent_list = 18
to_u32 trusted_domain_list = 0
to_u32 process_list = 19
to_u32 semi_supervised_models = 20
to_u32 shutdown = 21
to_u32 delete_customer_data = 22
to_u32 node_service = 100
to_u32 node_network_interface = 101
to_u32 node_hostname = 102
to_u32 node_time_sync = 103
to_u32 node_logging = 104
to_u32 node_remote_access = 105
to_u32 node_power = 106
to_u32 node_observation = 107
to_u32 node_version = 108
to_u32 node_package = 109
to_u32 node_enroll = 110
to_u32 train_model = 23
to_u32 clone_model = 24
to_u32 cancel_run = 25
to_u32 run_detector_once = 26
to_u32 unknown = 4294967295

-- `RequestCode::from_primitive(n)`: the listed codes, and `unknown` for every other number.
unfoldable pub from_primitive : ℕ → RequestCode
from_primitive n =
    if n == 1
    then dns_start
    else if n == 2
    then dns_stop
    else if n == 4
    then reboot
    else if n == 6
    then reload_config
    else if n == 5
    then reload_ti
    else if n == 7
    then resource_usage
    else if n == 8
    then tor_exit_node_list
    else if n == 9
    then sampling_policy_list
    else if n == 10
    then reload_filter_rule
    else if n == 12
    then update_config
    else if n == 13
    then delete_sampling_policy
    else if n == 14
    then internal_network_list
    else if n == 15
    then allowlist
    else if n == 16
    then blocklist
    else if n == 17
    then echo_request
    else if n == 18
    then trusted_user_agent_list
    else if n == 0
    then trusted_domain_list
    else if n == 19
    then process_list
    else if n == 20
    then semi_supervised_models
    else if n == 21
    then shutdown
    else if n == 22
    then delete_customer_data
    else if n == 100
    then node_service
    else if n == 101
    then node_network_interface
    else if n == 102
    then node_hostname
    else if n == 103
    then node_time_sync
    else if n == 104
    then node_logging
    else if n == 105
    then node_remote_access
    else if n == 106
    then node_power
    else if n == 107
    then node_observation
    else if n == 108
    then node_version
    else if n == 109
    then node_package
    else if n == 110
    then node_enroll
    else if n == 23
    then train_model
    else if n == 24
    then clone_model
    else if n == 25
    then cancel_run
    else if n == 26
    then run_detector_once
    else unknown
