-- ===== src/Server/Api/Common.antt =====
-- server/api.rs: the encoding of a request, and the methods that send a request of the common
-- families. What bincode makes of a payload is a parameter, like what `open_bi` gives.
use review_protocol.Prelude.{ℕ, String, Result, ok, List, ◌++◌, map_ok}
use review_protocol.ProtocolError.{IoError}
use review_protocol.Wire.{Bytes}
use review_protocol.Codes.Client.{RequestCode, to_u32}
use review_protocol.Types.Shared.{ℤ}
use review_protocol.Types.Detection.{HostNetworkGroup, SamplingPolicy}
use review_protocol.Types.Engine.{
  CustomerDataDeletionRequest, TrainModelRequest, CloneModelRequest, TrafficFilterRule,
}
use review_protocol.Types.Node.Config.{
  NodeServiceRequest, NodeNetworkInterfaceRequest, NodeHostnameRequest, NodeTimeSyncRequest,
  NodeLoggingRequest, NodeRemoteAccessRequest,
}
use review_protocol.Types.Node.Observation.{
  NodePowerRequest, NodeObservationRequest, NodeVersionRequest,
}
use review_protocol.Types.Node.Package.{NodePackageRequest}
use review_protocol.Types.Node.Enroll.{NodeEnrollRequest}
use review_protocol.Server.Api.Errors.{ApiError}
use review_protocol.Server.Api.Requests.{Stream, Requested, send_request}

-- What bincode makes of the payloads; a failure as the error that the caller gets. `fixed_u32` is the
-- fixed-size encoding of a code.
pub record Encoder (Net : Type 0) : Type 0 where
  pub fixed_u32 : ℕ → Bytes
  pub unit : Result Bytes ApiError
  pub networks : HostNetworkGroup Net → Result Bytes ApiError
  pub deletion : CustomerDataDeletionRequest → Result Bytes ApiError
  pub train_model : TrainModelRequest → Result Bytes ApiError
  pub clone_model : CloneModelRequest → Result Bytes ApiError
  pub run_id : ℕ → Result Bytes ApiError
  pub detector_id : ℤ → Result Bytes ApiError
  pub rules : List (TrafficFilterRule Net) → Result Bytes ApiError
  pub policies : List SamplingPolicy → Result Bytes ApiError
  pub texts : List String → Result Bytes ApiError
  pub service : NodeServiceRequest → Result Bytes ApiError
  pub network_interface : NodeNetworkInterfaceRequest → Result Bytes ApiError
  pub hostname : NodeHostnameRequest → Result Bytes ApiError
  pub time_sync : NodeTimeSyncRequest → Result Bytes ApiError
  pub logging : NodeLoggingRequest → Result Bytes ApiError
  pub remote_access : NodeRemoteAccessRequest → Result Bytes ApiError
  pub observation : NodeObservationRequest → Result Bytes ApiError
  pub version : NodeVersionRequest → Result Bytes ApiError
  pub enroll : NodeEnrollRequest → Result Bytes ApiError
  pub power : NodePowerRequest → Result Bytes ApiError
  pub package_request : NodePackageRequest → Result Bytes ApiError

-- What a method does with the stream that `open_bi` gives.
abbrev pub Sends : Type 0 → Type 0
Sends T = Result (Stream T) IoError → Requested T T

module _ {Net : Type 0} (encoder : Encoder Net) where
  -- The code and the payload.
  unfoldable pub encode_request : RequestCode → Result Bytes ApiError → Result Bytes ApiError
  encode_request code payload = map_ok (λ p. encoder.fixed_u32 (to_u32 code) ++ p) payload

  unfoldable pub send_allowlist : HostNetworkGroup Net → Sends (Unit {0})
  unfolding encode_request send_request
  send_allowlist a = send_request (encode_request RequestCode.allowlist (encoder.networks a))

  unfoldable pub send_blocklist : HostNetworkGroup Net → Sends (Unit {0})
  unfolding encode_request send_request
  send_blocklist a = send_request (encode_request RequestCode.blocklist (encoder.networks a))

  unfoldable pub send_config_update_cmd : Sends (Unit {0})
  unfolding encode_request send_request
  send_config_update_cmd = send_request (encode_request RequestCode.update_config encoder.unit)

  unfoldable pub send_delete_customer_data_cmd : CustomerDataDeletionRequest → Sends (Unit {0})
  unfolding encode_request send_request
  send_delete_customer_data_cmd a =
      send_request (encode_request RequestCode.delete_customer_data (encoder.deletion a))

  unfoldable pub send_train_model : TrainModelRequest → Sends (Unit {0})
  unfolding encode_request send_request
  send_train_model a = send_request (encode_request RequestCode.train_model (encoder.train_model a))

  unfoldable pub send_clone_model : CloneModelRequest → Sends (Unit {0})
  unfolding encode_request send_request
  send_clone_model a = send_request (encode_request RequestCode.clone_model (encoder.clone_model a))

  unfoldable pub send_cancel_run : ℕ → Sends (Unit {0})
  unfolding encode_request send_request
  send_cancel_run a = send_request (encode_request RequestCode.cancel_run (encoder.run_id a))

  unfoldable pub send_run_detector_once : ℤ → Sends (Unit {0})
  unfolding encode_request send_request
  send_run_detector_once a =
      send_request (encode_request RequestCode.run_detector_once (encoder.detector_id a))

  unfoldable pub send_filtering_rules : List (TrafficFilterRule Net) → Sends (Unit {0})
  unfolding encode_request send_request
  send_filtering_rules a =
      send_request (encode_request RequestCode.reload_filter_rule (encoder.rules a))

  unfoldable pub send_internal_network_list : HostNetworkGroup Net → Sends (Unit {0})
  unfolding encode_request send_request
  send_internal_network_list a =
      send_request (encode_request RequestCode.internal_network_list (encoder.networks a))

  unfoldable pub send_ping : Sends (Unit {0})
  unfolding encode_request send_request
  send_ping = send_request (encode_request RequestCode.echo_request encoder.unit)

  unfoldable pub send_sampling_policies : List SamplingPolicy → Sends (Unit {0})
  unfolding encode_request send_request
  send_sampling_policies a =
      send_request (encode_request RequestCode.sampling_policy_list (encoder.policies a))

  unfoldable pub send_tor_exit_node_list : List String → Sends (Unit {0})
  unfolding encode_request send_request
  send_tor_exit_node_list a =
      send_request (encode_request RequestCode.tor_exit_node_list (encoder.texts a))

  unfoldable pub send_trusted_domain_list : List String → Sends (Unit {0})
  unfolding encode_request send_request
  send_trusted_domain_list a =
      send_request (encode_request RequestCode.trusted_domain_list (encoder.texts a))

  unfoldable pub send_trusted_user_agent_list : List String → Sends (Unit {0})
  unfolding encode_request send_request
  send_trusted_user_agent_list a =
      send_request (encode_request RequestCode.trusted_user_agent_list (encoder.texts a))

  -- `notify_config_update` of server.rs: the code alone is sent.
  unfoldable pub notify_config_update : Sends (Unit {0})
  unfolding send_request
  notify_config_update = send_request (ok (encoder.fixed_u32 (to_u32 RequestCode.update_config)))
