-- ===== src/ServiceId/ServerCodes/Laws.antt =====
-- service_id.rs: the identifiers of the codes that a manager serves tell those codes apart.
use text.Mathlib.Text.{◌==◌}
use review_protocol.Prelude.{
  ◌≡◌, refl, sym, ap, ◌∙◌, Bool, true, false, Option, none, some, List, [], ◌∷◌, if◌then◌else◌,
}
use review_protocol.Codes.Server.{RequestCode}
use review_protocol.ServiceId.Defs.{ServiceId, to_string}
use review_protocol.ServiceId.ServerCodes.{from_server_request_code}

same : Option ServiceId → Option ServiceId → Bool
unfolding to_string
same none none = true
same (some x) (some y) = to_string x == to_string y
same _ _ = false

-- The first code of the list with the given identifier.
find_code : Option ServiceId → List RequestCode → RequestCode
unfolding same from_server_request_code
find_code id [] = RequestCode.unknown
find_code id (c ∷ cs) =
    let rest = find_code id cs in if same (from_server_request_code c) id then c else rest

abbrev codes : List RequestCode
codes =
    RequestCode.get_data_source ∷ RequestCode.get_indicator ∷ RequestCode.get_max_event_id_num
    ∷ RequestCode.get_model ∷ RequestCode.get_model_names ∷ RequestCode.insert_column_statistics
    ∷ RequestCode.insert_model ∷ RequestCode.insert_time_series ∷ RequestCode.remove_model
    ∷ RequestCode.remove_outliers ∷ RequestCode.update_clusters ∷ RequestCode.update_model
    ∷ RequestCode.update_outliers ∷ RequestCode.insert_event_labels
    ∷ RequestCode.get_data_source_list ∷ RequestCode.get_label_db_patterns
    ∷ RequestCode.insert_data_source ∷ RequestCode.renew_certificate
    ∷ RequestCode.get_trusted_domain_list ∷ RequestCode.get_outliers
    ∷ RequestCode.get_tor_exit_node_list ∷ RequestCode.get_internal_network_list
    ∷ RequestCode.get_allowlist ∷ RequestCode.get_blocklist ∷ RequestCode.get_pretrained_model
    ∷ RequestCode.get_trusted_user_agent_list ∷ RequestCode.get_config
    ∷ RequestCode.update_host_opened_ports ∷ RequestCode.update_host_os_agents
    ∷ RequestCode.get_sampling_policy_list ∷ RequestCode.report_customer_data_deletion
    ∷ RequestCode.upload_run_model ∷ RequestCode.report_run ∷ RequestCode.report_active_runs
    ∷ RequestCode.report_detector_status ∷ []

find_code-from_server_request_code :
    (c : RequestCode) → find_code (from_server_request_code c) codes ≡ c
unfolding find_code from_server_request_code
find_code-from_server_request_code RequestCode.get_data_source = refl
find_code-from_server_request_code _ = refl

-- Two codes with the same identifier, or both without one, are the same code; so a policy on
-- identifiers never confuses two operations.
pub from_server_request_code_inj :
    (c d : RequestCode) → from_server_request_code c ≡ from_server_request_code d → c ≡ d
from_server_request_code_inj c d e =
    sym (find_code-from_server_request_code c)
    ∙ ap (λ id. find_code id codes) e
    ∙ find_code-from_server_request_code d
