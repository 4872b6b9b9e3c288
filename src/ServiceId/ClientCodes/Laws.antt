-- ===== src/ServiceId/ClientCodes/Laws.antt =====
-- service_id.rs: the identifiers of the codes that an agent serves tell those codes apart.
use text.Mathlib.Text.{◌==◌}
use review_protocol.Prelude.{
  ◌≡◌, refl, sym, ap, ◌∙◌, Bool, true, false, Option, none, some, List, [], ◌∷◌, if◌then◌else◌,
}
use review_protocol.Codes.Client.{RequestCode}
use review_protocol.ServiceId.Defs.{ServiceId, to_string}
use review_protocol.ServiceId.ClientCodes.{from_client_request_code}

same : Option ServiceId → Option ServiceId → Bool
unfolding to_string
same none none = true
same (some x) (some y) = to_string x == to_string y
same _ _ = false

-- The first code of the list with the given identifier.
find_code : Option ServiceId → List RequestCode → RequestCode
unfolding same from_client_request_code
find_code id [] = RequestCode.unknown
find_code id (c ∷ cs) =
    let rest = find_code id cs in if same (from_client_request_code c) id then c else rest

abbrev codes : List RequestCode
codes =
    RequestCode.dns_start ∷ RequestCode.dns_stop ∷ RequestCode.reboot ∷ RequestCode.reload_config
    ∷ RequestCode.reload_ti ∷ RequestCode.resource_usage ∷ RequestCode.tor_exit_node_list
    ∷ RequestCode.sampling_policy_list ∷ RequestCode.reload_filter_rule ∷ RequestCode.update_config
    ∷ RequestCode.delete_sampling_policy ∷ RequestCode.internal_network_list ∷ RequestCode.allowlist
    ∷ RequestCode.blocklist ∷ RequestCode.echo_request ∷ RequestCode.trusted_user_agent_list
    ∷ RequestCode.trusted_domain_list ∷ RequestCode.process_list
    ∷ RequestCode.semi_supervised_models ∷ RequestCode.shutdown ∷ RequestCode.delete_customer_data
    ∷ RequestCode.node_service ∷ RequestCode.node_network_interface ∷ RequestCode.node_hostname
    ∷ RequestCode.node_time_sync ∷ RequestCode.node_logging ∷ RequestCode.node_remote_access
    ∷ RequestCode.node_power ∷ RequestCode.node_observation ∷ RequestCode.node_version
    ∷ RequestCode.node_package ∷ RequestCode.node_enroll ∷ RequestCode.train_model
    ∷ RequestCode.clone_model ∷ RequestCode.cancel_run ∷ RequestCode.run_detector_once ∷ []

find_code-from_client_request_code :
    (c : RequestCode) → find_code (from_client_request_code c) codes ≡ c
unfolding find_code from_client_request_code
find_code-from_client_request_code RequestCode.dns_start = refl
find_code-from_client_request_code _ = refl

-- Two codes with the same identifier, or both without one, are the same code. A node code has the
-- identifier of its family, which its operations share.
pub from_client_request_code_inj :
    (c d : RequestCode) → from_client_request_code c ≡ from_client_request_code d → c ≡ d
from_client_request_code_inj c d e =
    sym (find_code-from_client_request_code c)
    ∙ ap (λ id. find_code id codes) e
    ∙ find_code-from_client_request_code d
